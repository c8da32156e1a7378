-- ===== src/Streams/Merge.antt =====
-- streams.ts: `mergeArrayBuffers` copies the chunks one after the other.
use rbmq_demo.Common.{
  ℕ, suc, ◌+◌, ◌-◌, ◌≤◌, none, some, List, [], ◌∷◌, ◌++◌, length, replicate, ◌≡◌, refl, sym, ap,
  ap₂, ◌∙◌, append_assoc, append-nil, length-append, arith,
}
use rbmq_demo.Common.Options.{◌>>=◌}
use rbmq_demo.Streams.{set_uint8, set_octets, merge_from, merge_array_buffers}

abbrev pub concat_bytes : List (List ℕ) → List ℕ
concat_bytes [] = []
concat_bytes (c ∷ cs) = c ++ concat_bytes cs

set_uint8-append :
    (done rest : List ℕ) (b octet : ℕ)
    → set_uint8 (done ++ b ∷ rest) (length done) octet ≡ some (done ++ octet ∷ rest)
unfolding set_uint8
set_uint8-append [] rest b octet = refl
set_uint8-append (x ∷ xs) rest b octet =
    ap (λ o. o >>= λ r. some (x ∷ r)) (set_uint8-append xs rest b octet)

set_uint8_end : (done : List ℕ) (octet : ℕ) → set_uint8 done (length done) octet ≡ none
unfolding set_uint8
set_uint8_end [] octet = refl
set_uint8_end (x ∷ xs) octet = ap (λ o. o >>= λ r. some (x ∷ r)) (set_uint8_end xs octet)

length_snoc : (done : List ℕ) (b : ℕ) → length (done ++ b ∷ []) ≡ length done + 1
length_snoc done b = length-append done (b ∷ [])

set_octets-append :
    (octets done : List ℕ) (k : ℕ)
    → set_octets (done ++ replicate (length octets + k) 0) (length done) octets
      ≡ some ((done ++ octets) ++ replicate k 0)
unfolding set_octets
set_octets-append [] done k =
    let none_more : 0 + k ≡ k = omega arith in
    ap₂ (λ d n. some (d ++ replicate n 0)) (sym (append-nil done)) none_more
set_octets-append (b ∷ bs) done k =
    let counted : length (b ∷ bs) + k ≡ suc (length bs + k) = omega arith in
    ap (λ n. set_octets (done ++ replicate n 0) (length done) (b ∷ bs)) counted
    ∙ ap (λ o. o >>= λ next. set_octets next (length done + 1) bs)
        (set_uint8-append done (replicate (length bs + k) 0) 0 b)
    ∙ ap₂ (λ buffer i. set_octets buffer i bs)
        (sym (append_assoc done (b ∷ []) (replicate (length bs + k) 0))) (sym (length_snoc done b))
    ∙ set_octets-append bs (done ++ b ∷ []) k
    ∙ ap (λ d. some (d ++ replicate k 0)) (append_assoc done (b ∷ []) bs)

merge_from-concat_bytes :
    (chunks : List (List ℕ)) (done : List ℕ) (k : ℕ)
    → merge_from (done ++ replicate (length (concat_bytes chunks) + k) 0) (length done) chunks
      ≡ some ((done ++ concat_bytes chunks) ++ replicate k 0)
unfolding merge_from
merge_from-concat_bytes [] done k =
    let none_more : 0 + k ≡ k = omega arith in
    ap₂ (λ d n. some (d ++ replicate n 0)) (sym (append-nil done)) none_more
merge_from-concat_bytes (c ∷ cs) done k =
    let left = length (concat_bytes cs) + k in
    let total : length (c ++ concat_bytes cs) + k ≡ length c + left =
      omega (arith, length-append c (concat_bytes cs)) in
    ap (λ n. merge_from (done ++ replicate n 0) (length done) (c ∷ cs)) total
    ∙ ap (λ o. o >>= λ next. merge_from next (length done + length c) cs)
        (set_octets-append c done left)
    ∙ ap (λ i. merge_from ((done ++ c) ++ replicate left 0) i cs) (sym (length-append done c))
    ∙ merge_from-concat_bytes cs (done ++ c) k
    ∙ ap (λ d. some (d ++ replicate k 0)) (append_assoc done c (concat_bytes cs))

-- If the chunks fit into the size given, the merged buffer holds their bytes in order, then zeros.
pub merge_array_buffers-concat_bytes :
    (chunks : List (List ℕ)) (total_size : ℕ)
    → length (concat_bytes chunks) ≤ total_size
    → merge_array_buffers chunks total_size
      ≡ some (concat_bytes chunks ++ replicate (total_size - length (concat_bytes chunks)) 0)
unfolding merge_array_buffers
merge_array_buffers-concat_bytes chunks total_size h =
    let spare = total_size - length (concat_bytes chunks) in
    let total : total_size ≡ length (concat_bytes chunks) + spare = omega arith in
    ap (λ n. merge_from (replicate n 0) 0 chunks) total ∙ merge_from-concat_bytes chunks [] spare

-- Where the size is that of the chunks, the merged buffer is their bytes.
pub merge_array_buffers_exact :
    (chunks : List (List ℕ))
    → merge_array_buffers chunks (length (concat_bytes chunks)) ≡ some (concat_bytes chunks)
merge_array_buffers_exact chunks =
    let n = length (concat_bytes chunks) in
    let none_left : n - n ≡ 0 = omega arith in
    merge_array_buffers-concat_bytes chunks n (omega arith)
    ∙ ap (λ k. some (concat_bytes chunks ++ replicate k 0)) none_left
    ∙ ap some (append-nil (concat_bytes chunks))
