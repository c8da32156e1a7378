-- ===== src/Mrt/Stuck.antt =====
-- mrtProviders.ts: `loadMoreAcRef` is one for all providers, so loading more of one provider aborts
-- the loading of another, whose state goes on saying that it runs.
use rbmq_demo.Common.{
  ℕ, String, Option, none, some, List, [], ◌∷◌, ◌++◌, Bool, true, false, not, ◌||◌, ◌&&◌, ◌==◌,
  string_key, if◌then◌else◌, ◌≡◌, refl, sym, ap, ◌∙◌, arith, Bool-cases, Option-cases, inl, inr,
}
use rbmq_demo.Common.Dict.{get, get-set}
use mathlib.Core.Bool.{true≢false}
use rbmq_demo.Mrt.{
  ProviderMrtEntriesState, ProviderEntriesMap, fresh_page, add_event, stop, fail, Read, value, done,
  read_failed, no_reader, abort_error, rejected, reads_on, update, on_read, Reader, Hook,
  is_aborted, abort, same_reader, has_reader, remove_reader, deliver, can_load, load_more,
}

-- No call that still reads can change the provider's state.
abbrev pub all_closed : String → List ℕ → List Reader → Bool
all_closed p aborted [] = true
all_closed p aborted (q ∷ qs) =
    (not (q.provider == p) || is_aborted q.controller aborted) && all_closed p aborted qs

-- The provider's state says that it runs, and nothing will change it.
pub record IsStuck (p : String) (h : Hook) : Type 0 where
  pub state : ProviderMrtEntriesState
  pub present : get h.provider_map p ≡ some state
  pub running : state.is_running ≡ true
  pub closed : all_closed p h.aborted h.readers ≡ true

pub all_closed-append :
    (p : String) (aborted : List ℕ) (qs rs : List Reader)
    → all_closed p aborted (qs ++ rs) ≡ (all_closed p aborted qs && all_closed p aborted rs)
all_closed-append p aborted [] rs = refl
all_closed-append p aborted (q ∷ qs) rs = ground (arith, all_closed-append p aborted qs rs)

pub all_closed_more :
    (p : String) (aborted : List ℕ) (n : ℕ) (qs : List Reader)
    → all_closed p aborted qs ≡ true
    → all_closed p (n ∷ aborted) qs ≡ true
all_closed_more p aborted n [] h = refl
all_closed_more p aborted n (q ∷ qs) h = ground (arith, all_closed_more p aborted n qs)

pub all_closed-abort :
    (p : String) (o : Option ℕ) (aborted : List ℕ) (qs : List Reader)
    → all_closed p aborted qs ≡ true
    → all_closed p (abort o aborted) qs ≡ true
all_closed-abort p none aborted qs h = h
all_closed-abort p (some n) aborted qs h = all_closed_more p aborted n qs h

all_closed-remove_reader :
    (p : String) (aborted : List ℕ) (r : Reader) (qs : List Reader)
    → all_closed p aborted qs ≡ true
    → all_closed p aborted (remove_reader r qs) ≡ true
all_closed-remove_reader p aborted r [] h = refl
all_closed-remove_reader p aborted r (q ∷ qs) h =
    ground (arith, all_closed-remove_reader p aborted r qs)

-- A reader of the provider that still reads is aborted.
reader_closed :
    (p : String) (aborted : List ℕ) (r : Reader) (qs : List Reader)
    → all_closed p aborted qs ≡ true
    → has_reader r qs ≡ true
    → (r.provider == p) ≡ true
    → is_aborted r.controller aborted ≡ true
reader_closed p aborted r [] h k e = absurd (ground arith)
reader_closed p aborted r (q ∷ qs) h k e = elim (Bool-cases (same_reader q r)) [
  | inl same ↦
      let controller : q.controller ≡ r.controller = ground arith in
      let provider : q.provider ≡ r.provider =
        (string_key.same_iff q.provider r.provider).0 (ground arith) in
      let of_p : (q.provider == p) ≡ true = ap (λ x. x == p) provider ∙ e in
      ap (λ n. is_aborted n aborted) (sym controller) ∙ ground arith
  | inr other ↦ reader_closed p aborted r qs (ground arith) (ground arith) e
]

get-update :
    (m : ProviderEntriesMap) (p q : String) (f : ProviderMrtEntriesState → ProviderMrtEntriesState)
    → (p == q) ≡ false
    → get (update m p f) q ≡ get m q
unfolding update
get-update m p q f other = elim (Option-cases (get m p)) [
  | inl e ↦ rw e refl
  | inr (s, e) ↦ rw e (get-set m p q (f s) ∙ rw other refl)
]

get-on_read :
    (p q : String) (read : Read) (m : ProviderEntriesMap)
    → (p == q) ≡ false
    → get (on_read p read m) q ≡ get m q
get-on_read p q (value ev) m other = get-update m p q (add_event ev) other
get-on_read p q done m other = get-update m p q stop other
get-on_read p q read_failed m other = get-update m p q stop other
get-on_read p q no_reader m other = get-update m p q stop other
get-on_read p q abort_error m other = refl
get-on_read p q (rejected message) m other = get-update m p q (fail message) other

pub deliver-IsStuck :
    (p : String) (r : Reader) (read : Read) (h : Hook)
    → has_reader r h.readers ≡ true
    → IsStuck p h
    → IsStuck p (deliver r read h)
unfolding deliver
deliver-IsStuck p r read h there stuck = elim (Bool-cases (is_aborted r.controller h.aborted)) [
  | inl e ↦ rw e (record {
    state = stuck.state;
    present = stuck.present;
    running = stuck.running;
    closed = all_closed-remove_reader p h.aborted r h.readers stuck.closed;
  })
  | inr e ↦
      let other : (r.provider == p) ≡ false = other_provider (r.provider == p) refl e in
      rw e (record {
        state = stuck.state;
        present = get-on_read r.provider p read h.provider_map other ∙ stuck.present;
        running = stuck.running;
        closed = closed_rest (reads_on read);
      })
]
  where
    other_provider :
        (b : Bool)
        → (r.provider == p) ≡ b
        → is_aborted r.controller h.aborted ≡ false
        → (r.provider == p) ≡ false
    other_provider false e k = e
    other_provider true e k =
        absurd (true≢false (sym (reader_closed p h.aborted r h.readers stuck.closed there e) ∙ k))

    closed_rest :
        (b : Bool)
        → all_closed p h.aborted (if b then h.readers else remove_reader r h.readers) ≡ true
    closed_rest true = stuck.closed
    closed_rest false = all_closed-remove_reader p h.aborted r h.readers stuck.closed

-- A provider that runs is not asked for more, so one that is, is another one.
cannot_load :
    (p q : String) (h : Hook)
    → IsStuck p h
    → can_load (get h.provider_map q) ≡ true
    → (q == p) ≡ false
cannot_load p q h stuck e = elim (Bool-cases (q == p)) [
  | inl same ↦
      let at : q ≡ p = (string_key.same_iff q p).0 same in
      let runs : can_load (some stuck.state) ≡ false = ground (arith, stuck.running) in
      absurd (
        true≢false
          (sym e ∙ ap (λ k. can_load (get h.provider_map k)) at ∙ ap can_load stuck.present ∙ runs))
  | inr other ↦ other
]

pub load_more-IsStuck : (p q : String) (h : Hook) → IsStuck p h → IsStuck p (load_more q h)
unfolding load_more
load_more-IsStuck p q h stuck = elim (Bool-cases (can_load (get h.provider_map q))) [
  | inl e ↦
      let other = cannot_load p q h stuck e in
      rw e (record {
        state = stuck.state;
        present = get-set h.provider_map q p fresh_page ∙ rw other stuck.present;
        running = stuck.running;
        closed =
            all_closed-append p (abort h.load_more_ref h.aborted) h.readers _
            ∙ rw other (
                ap (λ b. b && true)
                  (all_closed-abort p h.load_more_ref h.aborted h.readers stuck.closed));
      })
  | inr e ↦ rw e stuck
]
