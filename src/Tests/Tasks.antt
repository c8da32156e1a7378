-- ===== src/Tests/Tasks.antt =====
-- web/components/TaskCreatorPanel.tsx and web/apis/types.ts: fields with few words.
use rbmq_demo.Common.{◌≡◌, refl, ℕ, none, some, [], ◌∷◌, true, get_elem?, string_key}
use rbmq_demo.Common.Codes.{Codes, codes_key, dedup, split, trim, index_of}
use rbmq_demo.Common.Decimal.{number_text}
use rbmq_demo.Common.Dict.{get, set}
use rbmq_demo.DnsPlan.{DnsProbePlan, tls, all_digits, expand_dns_probe_plan, strip_resolver}
use rbmq_demo.DnsPlan.Expanded.{numbered, expand_dns_probe_plan_lem}
use rbmq_demo.Tasks.{words_of, parse_name_map, add_name}
use rbmq_demo.Tasks.Words.{written, IsClean, words_of-written}

-- a
abbrev word : Codes
word = b'a' ∷ []

-- bc
abbrev other_word : Codes
other_word = b'b' ∷ b'c' ∷ []

-- a, a
repeated_run : words_of (some (b'a' ∷ b',' ∷ b' ' ∷ b'a' ∷ [])) ≡ word ∷ word ∷ []
unfolding words_of dedup trim split
repeated_run = refl

-- a,a
unspaced_run : words_of (some (b'a' ∷ b',' ∷ b'a' ∷ [])) ≡ word ∷ []
unfolding words_of dedup trim split
unspaced_run = refl

-- a=bc, =a
name_map_run :
    parse_name_map (b'a' ∷ b'=' ∷ b'b' ∷ b'c' ∷ b',' ∷ b' ' ∷ b'=' ∷ b'a' ∷ [])
    ≡ (word, other_word) ∷ []
unfolding parse_name_map add_name split trim index_of set
name_map_run = refl

word-IsClean : IsClean word
unfolding trim
word-IsClean = (refl, refl, refl)

other_word-IsClean : IsClean other_word
unfolding trim
other_word-IsClean = (refl, refl, refl)

words_of-written_example :
    words_of (some (written word (other_word ∷ word ∷ []))) ≡ word ∷ other_word ∷ word ∷ []
words_of-written_example =
    words_of-written word (other_word ∷ word ∷ []) word-IsClean
      (other_word-IsClean, (word-IsClean, tt)) (refl, (refl, tt))

abbrev plan : DnsProbePlan
plan = record {
  transport = some tls;
  type_of = none;
  domains = some (word ∷ other_word ∷ []);
  resolvers = some ((b'8' ∷ []) ∷ (b'9' ∷ []) ∷ []);
  domains_input = none;
  resolvers_input = none;
  server_name_map_input = none;
}

expand_dns_probe_plan_lem_example :
    ((expand_dns_probe_plan plan []).targets
      ≡ numbered plan [] 0 (
          (word, b'8' ∷ [])
          ∷ (word, b'9' ∷ [])
          ∷ (other_word, b'8' ∷ [])
          ∷ (other_word, b'9' ∷ [])
          ∷ []))
    × ((i : ℕ)
        → get (expand_dns_probe_plan plan []).targets_map (number_text i)
          ≡ get_elem?
              (numbered plan [] 0 (
                (word, b'8' ∷ [])
                ∷ (word, b'9' ∷ [])
                ∷ (other_word, b'8' ∷ [])
                ∷ (other_word, b'9' ∷ [])
                ∷ []))
              i)
expand_dns_probe_plan_lem_example = expand_dns_probe_plan_lem plan []

port_digits : all_digits (b'5' ∷ b'3' ∷ []) ≡ true
unfolding all_digits
port_digits = refl

-- The address a::53 loses its last group.
bare_run : strip_resolver (b'a' ∷ b':' ∷ b':' ∷ b'5' ∷ b'3' ∷ []) ≡ b'a' ∷ b':' ∷ []
unfolding strip_resolver
bare_run = refl
