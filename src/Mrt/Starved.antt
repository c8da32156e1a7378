-- ===== src/Mrt/Starved.antt =====
-- mrtProviders.ts: a provider whose next page is being loaded starves when another one is asked for
-- more.
use rbmq_demo.Common.{
  ◌+◌, String, some, [], ◌∷◌, ◌++◌, Bool, true, false, ◌==◌, ==_self, string_key, nat_beq,
  if◌then◌else◌, ◌≡◌, refl, sym, subst, ap, ◌∙◌, arith,
}
use rbmq_demo.Common.Dict.{get, set, get-set, get-set_self}
use mathlib.Core.Bool.{true≢false}
use rbmq_demo.Mrt.{fresh_page, Read, Reader, Hook, abort, has_reader, deliver, can_load, load_more}
use rbmq_demo.Mrt.Stuck.{
  IsStuck, all_closed, all_closed-append, all_closed_more, all_closed-abort, deliver-IsStuck,
  load_more-IsStuck,
}

-- The next page of the provider is asked for.
abbrev opened : String → Hook → Hook
opened p h = record {
  provider_map = set h.provider_map p fresh_page;
  aborted = abort h.load_more_ref h.aborted;
  next_controller = h.next_controller + 1;
  main_query = h.main_query;
  load_more_ref = some h.next_controller;
  readers = h.readers ++ record { controller = h.next_controller; provider = p } ∷ [];
}

load_more-opened :
    (p : String) (h : Hook) → can_load (get h.provider_map p) ≡ true → load_more p h ≡ opened p h
unfolding load_more
load_more-opened p h e = ap (λ b. if b then opened p h else h) e

opened-IsStuck :
    (p q : String) (h : Hook)
    → (q == p) ≡ false
    → all_closed p h.aborted h.readers ≡ true
    → IsStuck p (opened q (opened p h))
opened-IsStuck p q h other closed =
    let n = h.next_controller in
    let gone = n ∷ abort h.load_more_ref h.aborted in
    let before : all_closed p gone h.readers ≡ true =
      all_closed_more p (abort h.load_more_ref h.aborted) n h.readers
        (all_closed-abort p h.load_more_ref h.aborted h.readers closed) in
    let self : nat_beq n n ≡ true = ground arith in
    record {
      state = fresh_page;
      present =
          get-set (set h.provider_map p fresh_page) q p fresh_page
          ∙ rw other (get-set_self h.provider_map p fresh_page);
      running = refl;
      closed =
          all_closed-append p gone (h.readers ++ record { controller = n; provider = p } ∷ [])
            (record { controller = n + 1; provider = q } ∷ [])
          ∙ rw (other, all_closed-append, before, self, ==_self) refl;
    }

-- What can happen until the query itself is run again.
pub data More : Hook → Hook → Type 0 where
  no_more : (h : Hook) → More h h
  and_load : (p : String) (h j : Hook) → More (load_more p h) j → More h j
  and_deliver :
      (r : Reader) (read : Read) (h j : Hook)
      → has_reader r h.readers ≡ true
      → More (deliver r read h) j
      → More h j

More-IsStuck : (p : String) (h j : Hook) → More h j → IsStuck p h → IsStuck p j
More-IsStuck p _ _ (no_more h) stuck = stuck
More-IsStuck p _ _ (and_load q h j more) stuck =
    More-IsStuck p (load_more q h) j more (load_more-IsStuck p q h stuck)
More-IsStuck p _ _ (and_deliver r read h j there more) stuck =
    More-IsStuck p (deliver r read h) j more (deliver-IsStuck p r read h there stuck)

-- If the next page of one provider is asked for, and then that of another one before the first has
-- come, and nothing else was reading for the first, then the first goes on saying that it runs, and
-- no call can change that, whatever arrives and whatever more is asked for.
pub load_more-IsStuck_other :
    (p q : String) (h j : Hook)
    → (q == p) ≡ false
    → can_load (get h.provider_map p) ≡ true
    → can_load (get h.provider_map q) ≡ true
    → all_closed p h.aborted h.readers ≡ true
    → More (load_more q (load_more p h)) j
    → IsStuck p j
load_more-IsStuck_other p q h j other can can' closed more =
    let back : (p == q) ≡ false = not_same (p == q) refl in
    let still : can_load (get (opened p h).provider_map q) ≡ true =
      ap can_load (
        get-set h.provider_map p q fresh_page
        ∙ ap (λ b. if b then some fresh_page else get h.provider_map q) back)
      ∙ can' in
    More-IsStuck p (load_more q (load_more p h)) j more (
      subst (IsStuck p)
        (sym (ap (load_more q) (load_more-opened p h can) ∙ load_more-opened q (opened p h) still))
        (opened-IsStuck p q h other closed))
  where
    not_same : (b : Bool) → (p == q) ≡ b → (p == q) ≡ false
    not_same false e = e
    not_same true e =
        absurd
          (true≢false (sym (==_self p) ∙ ap (λ k. k == p) ((string_key.same_iff p q).0 e) ∙ other))
