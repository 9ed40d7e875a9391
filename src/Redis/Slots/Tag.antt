-- ===== src/Redis/Slots/Tag.antt =====
-- redis/cluster.go: keys of one hash tag share a slot.
use smartproxy.Common.{
  ℕ, suc, ◌+◌, ◌<◌, ◌≡◌, ◌≢◌, refl, true, [], ◌∷◌, ◌++◌, none, some, Bytes, ltb, arith, length,
  drop, take-append_length, All,
}
use smartproxy.Redis.Slots.{index_byte, tag_of, opened_at, hash_key, hash_slots, slot_of, hash_slot}

abbrev Lacks : ℕ → Bytes → Type 0
Lacks b = All (λ c. c ≢ b)

index_byte-found :
    (b : ℕ) (pre post : Bytes) → Lacks b pre → index_byte b (pre ++ b ∷ post) ≡ some (length pre)
unfolding index_byte
index_byte-found b [] post h = ground arith
index_byte-found b (c ∷ pre) post (hc, h) = ground (arith, index_byte-found b pre post h)

index_byte-none : (b : ℕ) (s : Bytes) → Lacks b s → index_byte b s ≡ none
unfolding index_byte
index_byte-none b [] h = refl
index_byte-none b (c ∷ s) (hc, h) = ground (arith, index_byte-none b s h)

hash_key-plain : (key : Bytes) → Lacks b'{' key → hash_key key ≡ key
unfolding hash_key opened_at
hash_key-plain key h = rw (index_byte-none b'{' key h) refl

hash_key-tag :
    (pre : Bytes) (c : ℕ) (tag post : Bytes)
    → Lacks b'{' pre
    → Lacks b'}' (c ∷ tag)
    → hash_key (pre ++ b'{' ∷ ((c ∷ tag) ++ b'}' ∷ post)) ≡ c ∷ tag
unfolding hash_key opened_at tag_of
hash_key-tag pre c tag post h k =
    let longer : ltb 0 (suc (length tag)) ≡ true = ground arith in
    rw
      (
        index_byte-found b'{' pre ((c ∷ tag) ++ b'}' ∷ post) h,
        drop-append-next pre b'{' ((c ∷ tag) ++ b'}' ∷ post),
        index_byte-found b'}' (c ∷ tag) post k,
        longer,
      )
      (take-append_length (c ∷ tag) (b'}' ∷ post))
  where
    drop-append-next : (pre : Bytes) (b : ℕ) (s : Bytes) → drop (length pre + 1) (pre ++ b ∷ s) ≡ s
    drop-append-next [] b s = refl
    drop-append-next (c ∷ pre) b s =
        let n : length (c ∷ pre) + 1 ≡ suc (length pre + 1) = omega arith in
        rw n (drop-append-next pre b s)

slot_of_bound : (draw : ℕ) (key : Bytes) → draw < hash_slots → slot_of draw key < hash_slots
unfolding slot_of
slot_of_bound draw [] h = h
slot_of_bound draw (c ∷ key) h = omega arith

hash_slot_bound : (draw : ℕ) (key : Bytes) → draw < hash_slots → hash_slot draw key < hash_slots
unfolding hash_slot
hash_slot_bound draw key h = slot_of_bound draw (hash_key key) h

-- A key with a hash tag is in the slot of the tag alone, whatever stands around the braces and
-- whatever is drawn, so that keys of one tag share a slot. The tag is what stands between the first
-- '{' and the next '}'; it is not empty and has no '{' itself.
pub hash_slot-tag :
    (draw draw' : ℕ) (pre : Bytes) (c : ℕ) (tag post : Bytes)
    → Lacks b'{' pre
    → Lacks b'}' (c ∷ tag)
    → Lacks b'{' (c ∷ tag)
    → (hash_slot draw (pre ++ b'{' ∷ ((c ∷ tag) ++ b'}' ∷ post)) ≡ hash_slot draw' (c ∷ tag))
      × (hash_slot draw' (c ∷ tag) < hash_slots)
unfolding hash_slot slot_of
hash_slot-tag draw draw' pre c tag post h k l =
    rw (hash_key-tag pre c tag post h k, hash_key-plain (c ∷ tag) l) (refl, omega arith)
