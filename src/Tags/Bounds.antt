-- ===== src/Tags/Bounds.antt =====
-- The limits that `Normalize` keeps (backend/internal/tags/tags.go).
use mathlib.Core.List.Memᴰ
use mathlib.Core.List.Permᴰ
use bomhort.Base.{
  Permᴰ-Distinct, Distinct-snoc, subst, ℕ, zero, suc, ◌+◌, ◌≤◌, Text, false, ◌||◌, List, [], ◌∷◌,
  ◌++◌, is_empty, contains, contains_iff, ltb, length, length-append, sort-perm, Permᴰ-Memᴰ,
  Permᴰ-length, Distinct, Memᴰ, ◌≡◌, inl, inr, refl, sym, arith, Bool-cases,
}
use bomhort.Tags.{Strings, max_len, max_count, first_bytes, clean_tag, collect, normalize}

length-first_bytes : (n : ℕ) (t : Text) → length (first_bytes n t) ≤ n
length-first_bytes zero t = omega arith
length-first_bytes (suc n) [] = omega arith
length-first_bytes (suc n) (b ∷ t) = omega (arith, length-first_bytes n t)

clean_tag-length : (lib : Strings) (raw : Text) → length (clean_tag lib raw) ≤ max_len
unfolding clean_tag
clean_tag-length lib raw =
    let t = lib.to_lower (lib.trim_space raw) in
    elim (Bool-cases (ltb max_len (length t))) [
      | inl e ↦ rw e (length-first_bytes max_len t)
      | inr e ↦ rw e (ground arith)
    ]

abbrev pub IsTag : Text → Type 0
IsTag t = (length t ≤ max_len) × (is_empty t ≡ false)

-- What the loop keeps of the tags that it has taken.
record IsTaken (n : ℕ) (out : List Text) : Type 0 where
  room : length out + n ≡ max_count
  tags : (t : Text) → Memᴰ t out → IsTag t
  once : Distinct out

pub record Limits (out : List Text) : Type 0 where
  pub count : length out ≤ max_count
  pub each : (t : Text) → Memᴰ t out → IsTag t
  pub distinct : Distinct out

collect-Limits :
    (lib : Strings) (n : ℕ) (raw out : List Text) → IsTaken n out → Limits (collect lib n raw out)
unfolding collect
collect-Limits lib zero raw out h = record {
  count = omega (arith, h.room);
  each = h.tags;
  distinct = h.once;
}
collect-Limits lib (suc n) [] out h = record {
  count = omega (arith, h.room);
  each = h.tags;
  distinct = h.once;
}
collect-Limits lib (suc n) (r ∷ raw) out h =
    let t = clean_tag lib r in
    elim (Bool-cases (is_empty t || contains out t)) [
      | inl e ↦ rw e (collect-Limits lib (suc n) raw out h)
      | inr e ↦ rw e (
          collect-Limits lib n raw (out ++ t ∷ []) (record {
            room = omega (arith, h.room, length-append out (t ∷ []));
            tags = λ u m. elim (Memᴰ.append_cases out m) [
              | inl k ↦ h.tags u k
              | inr k ↦
                  subst IsTag (sym (Memᴰ.eq_of_singleton k)) (clean_tag-length lib r, ground arith)
            ];
            once =
                Distinct-snoc out t h.once
                  (λ k. let seen = (contains_iff out t).1 k in ground arith);
          }))
    ]

pub collect_all-Limits : (lib : Strings) (raw : List Text) → Limits (collect lib max_count raw [])
collect_all-Limits lib raw =
    collect-Limits lib max_count raw []
      (record { room = refl; tags = λ t m. absurd (Memᴰ.not-nil m); once = Distinct.nil })

-- Whatever the tags, `Normalize` returns at most 32 of them, each of one to 64 bytes, and none twice.
pub normalize-Limits : (lib : Strings) (raw : List Text) → Limits (normalize lib raw)
unfolding normalize
normalize-Limits lib raw =
    let taken = collect lib max_count raw [] in
    let limits = collect_all-Limits lib raw in
    record {
      count = omega (arith, Permᴰ-length (sort-perm taken), limits.count);
      each = λ t m. limits.each t (Permᴰ-Memᴰ (sort-perm taken) m);
      distinct = Permᴰ-Distinct (Permᴰ.symm (sort-perm taken)) limits.distinct;
    }
