-- ===== src/Health/Arrays.antt =====
-- plugins/agl_health/AglHealth.cpp: the readings that go through an array.
use test_runner.Prelude.{
  ℕ, zero, suc, ◌+◌, ◌^◌, ◌<◌, ◌≡◌, ◌≢◌, refl, sym, ap, ◌∙◌, true, false, some, List, [], ◌∷◌, ◌++◌,
  map, Bytes, codes, length, get_elem?, arith, All, ltb, ◌==◌, get_or, ◌⊎◌, inl, inr,
}
use test_runner.Health.Json.{Fallible, ok, JsonLibrary}
use test_runner.Health.Documented.{Documented, member}
use mathlib.Core.List.{append_assoc, append-nil}
use test_runner.Health.Fill.{
  fill_each, fill_list, comm_bytes, comm_array, read_comm, get_bucket, fill_buckets,
}

-- A byte of a C string.
abbrev pub IsTextByte : ℕ → Type 0
IsTextByte c = (c ≢ 0) × (c < 2 ^ 8)

module _ (J : JsonLibrary) (D : Documented J) where
  module _ {A : Type 0} (fill : J.Json → Fallible A) (write : A → J.Json) (P : A → Type 0)
      (reads : (a : A) → P a → fill (write a) ≡ ok a) where
    fill_each-array :
        (js : List J.Json) (i : ℕ) (xs : List A)
        → ((k : ℕ) → get_elem? js (i + k) ≡ get_elem? (map write xs) k)
        → All P xs
        → fill_each J fill (D.array js) (length xs) i ≡ ok xs
    unfolding fill_each
    fill_each-array js i [] same h = refl
    fill_each-array js i (x ∷ xs) same h = rw (
      D.index-array js i (write x) (ap (get_elem? js) (omega arith) ∙ same 0),
      reads x h.0,
      fill_each-array js (i + 1) xs (λ k. ap (get_elem? js) (omega arith) ∙ same (suc k)) h.1,
    )

    length-map : (xs : List A) → length (map write xs) ≡ length xs
    length-map [] = refl
    length-map (x ∷ xs) = ap suc (length-map xs)

    -- An array is read entry by entry.
    pub fill_list-array :
        (xs : List A) → All P xs → fill_list J fill (D.array (map write xs)) ≡ ok xs
    unfolding fill_list
    fill_list-array xs h =
        rw (D.size-array (map write xs), length-map xs)
          (fill_each-array (map write xs) 0 xs (λ k. ap (get_elem? (map write xs)) (omega arith)) h)

  comm_bytes-array :
      (cs : List ℕ) (rest : List ℕ) (acc : Bytes)
      → All IsTextByte cs
      → comm_bytes J (map D.number (cs ++ 0 ∷ rest)) acc ≡ ok (acc ++ cs)
  unfolding comm_bytes
  comm_bytes-array [] rest acc h =
      rw (D.get_u8-number 0 (omega arith)) (ap ok (sym (append-nil acc)))
  comm_bytes-array (c ∷ cs) rest acc h =
      let more : (c == 0) ≡ false = ground (arith, h.0.0) in
      rw (D.get_u8-number c h.0.1, more)
        (comm_bytes-array cs rest (acc ++ c ∷ []) h.1 ∙ ap ok (append_assoc acc (c ∷ []) cs))

  -- A command name that comes as an array of bytes, none of the first ones zero, then a zero and then
  -- anything, is read as the bytes before the zero.
  pub read_comm-array :
      (members : List (Bytes × J.Json)) (cs rest : List ℕ)
      → member members (codes "comm") ≡ some (D.array (map D.number (cs ++ 0 ∷ rest)))
      → All IsTextByte cs
      → read_comm J (J.object members) ≡ ok cs
  unfolding read_comm comm_array
  read_comm-array members cs rest e h = rw (
    D.contains-object members (codes "comm"),
    e,
    D.at-object members (codes "comm") _ e,
    D.is_array-array (map D.number (cs ++ 0 ∷ rest)),
    D.elements-array (map D.number (cs ++ 0 ∷ rest)),
    comm_bytes-array cs rest [] h,
  )

  -- An entry of an array of numbers, or the place behind its end.
  abbrev Entry : List ℕ → ℕ → Type 0
  Entry ns i =
      ((ltb i (length (map D.number ns)) ≡ true)
        × (n : ℕ) × (get_elem? (map D.number ns) i ≡ some (D.number n))
        × (get_or ns i 0 ≡ n)
        × (n < 2 ^ 64))
      ⊎ ((ltb i (length (map D.number ns)) ≡ false) × (get_or ns i 0 ≡ 0))

  later : (n : ℕ) (ns : List ℕ) (i : ℕ) → Entry ns i → Entry (n ∷ ns) (suc i)
  later n ns i (inl (l, k, e, f, g)) = inl (ground arith, k, e, f, g)
  later n ns i (inr (l, f)) = inr (ground arith, f)

  entry : (ns : List ℕ) (i : ℕ) → All (λ n. n < 2 ^ 64) ns → Entry ns i
  entry [] i h = inr (ground arith, refl)
  entry (n ∷ ns) zero h = inl (ground arith, n, refl, refl, h.0)
  entry (n ∷ ns) (suc i) h = later n ns i (entry ns i h.1)

  get_bucket-numbers :
      (ns : List ℕ) (i : ℕ)
      → All (λ n. n < 2 ^ 64) ns
      → get_bucket J (D.array (map D.number ns)) i ≡ ok (get_or ns i 0)
  unfolding get_bucket
  get_bucket-numbers ns i h = elim (entry ns i h) [
    | inl (l, n, e, f, g) ↦ rw (
      D.size-array (map D.number ns),
      l,
      D.index-array (map D.number ns) i (D.number n) e,
      f,
      D.get_u64-number n g,
    )
    | inr (l, f) ↦ rw (D.size-array (map D.number ns), l, f)
  ]

  -- An array of counts, of any length, fills the eight buckets in order: a bucket that the array does
  -- not have is 0, and counts behind the eighth are left out. The counts are below 2^64.
  pub fill_buckets-numbers :
      (ns : List ℕ)
      → All (λ n. n < 2 ^ 64) ns
      → fill_buckets J (D.array (map D.number ns))
        ≡ ok (record {
          lt_10us = get_or ns 0 0;
          lt_100us = get_or ns 1 0;
          lt_1ms = get_or ns 2 0;
          lt_10ms = get_or ns 3 0;
          lt_100ms = get_or ns 4 0;
          lt_1s = get_or ns 5 0;
          lt_10s = get_or ns 6 0;
          ge_10s = get_or ns 7 0;
        })
  unfolding fill_buckets
  fill_buckets-numbers ns h = rw (
    get_bucket-numbers ns 0 h,
    get_bucket-numbers ns 1 h,
    get_bucket-numbers ns 2 h,
    get_bucket-numbers ns 3 h,
    get_bucket-numbers ns 4 h,
    get_bucket-numbers ns 5 h,
    get_bucket-numbers ns 6 h,
    get_bucket-numbers ns 7 h,
  )
