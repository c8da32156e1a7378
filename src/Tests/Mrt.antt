-- ===== src/Tests/Mrt.antt =====
-- web/apis/mrtProviders.ts: two providers with a first page each.
use rbmq_demo.Common.{ℕ, String, refl, [], ◌∷◌, some, none, true}
use rbmq_demo.Mrt.{
  Hook, Reader, value, done, ResumableResponseStreamEvent, deliver, restart, load_more,
}
use rbmq_demo.Mrt.Pages.{here, and_then, restarted, initial_hook, ArePages, reached-ArePages}
use rbmq_demo.Mrt.Stuck.{IsStuck}
use rbmq_demo.Mrt.Starved.{no_more, and_deliver, load_more-IsStuck_other}

abbrev line : ResumableResponseStreamEvent
line = record { inner = record { entry = none; err = none }; cursor_id = some "next" }

abbrev reader : ℕ → String → Reader
reader n p = record { controller = n; provider = p }

abbrev started : Hook
started = restart true ("arin" ∷ "apnic" ∷ []) initial_hook

-- Both first pages have come, each with a cursor.
abbrev loaded_once : Hook
loaded_once = deliver (reader 0 "apnic") done (
    deliver (reader 0 "arin") done
      (deliver (reader 0 "apnic") (value line) (deliver (reader 0 "arin") (value line) started)))

-- The second page of one provider is cut off by the other's, and its result is dropped.
abbrev cut_off : Hook
cut_off = deliver (reader 1 "arin") (value line) (load_more "apnic" (load_more "arin" loaded_once))

reached-ArePages_example : ArePages started.provider_map
reached-ArePages_example = reached-ArePages started (
    and_then initial_hook started started (restarted true ("arin" ∷ "apnic" ∷ []) initial_hook)
      (here started))

load_more-IsStuck_other_example : IsStuck "arin" cut_off
unfolding restart deliver load_more
load_more-IsStuck_other_example =
    load_more-IsStuck_other "arin" "apnic" loaded_once cut_off refl refl refl refl (
      and_deliver (reader 1 "arin") (value line) (load_more "apnic" (load_more "arin" loaded_once))
        cut_off refl (no_more cut_off))
