-- ===== src/Router/Levels.antt =====
-- router.ts: what a lookup in the trie finds, without the trie. Each level of the trie is a filter
-- on the list of routes.
use rbmq_demo.Common.{ℕ, ◌+◌, Bool, ◌&&◌, not, List, [], ◌∷◌, filter, ltb, nat_beq}
use rbmq_demo.Router.{AddrLike, get_masked_value, Route}

-- What a level answers: what was found below it, if that is anything, else what it holds.
abbrev pub below_or : {R : Type 0} → List R → List R → List R
below_or [] here = here
below_or (r ∷ rs) here = r ∷ rs

module _ {A V : Type 0} ⦃addr : AddrLike A⦄ where
  -- The route is kept at a node with `eaten` bits read and `segment` to come.
  abbrev pub stops_at : ℕ → ℕ → Route A V → Bool
  stops_at eaten segment r = ltb r.prefix_length (eaten + segment)

  -- The route goes on, into the subtree of `key`.
  abbrev pub goes_into : ℕ → ℕ → ℕ → Route A V → Bool
  goes_into eaten segment key r =
      not (stops_at eaten segment r) && nat_beq (get_masked_value r.network_addr eaten segment) key

  -- The routes of the deepest level along the address that has any.
  unfoldable pub deepest_level : List (Route A V) → A → List ℕ → ℕ → List (Route A V)
  deepest_level rs a [] eaten = rs
  deepest_level rs a (segment ∷ segments) eaten =
      below_or
        (deepest_level (filter (goes_into eaten segment (get_masked_value a eaten segment)) rs) a
          segments (eaten + segment))
        (filter (stops_at eaten segment) rs)
