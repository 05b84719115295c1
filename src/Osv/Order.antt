-- ===== src/Osv/Order.antt =====
-- `CVEID` (backend/internal/osvutil/cveid.go) and the order of the aliases.
use mathlib.Core.List.{Perm, Permᴰ}
use mathlib.Core.Logic.{∥∥₁_elim}
use bomhort.Base.{
  ◌||◌, ◌&&◌, strip_prefix, Text, true, false, List, [], ◌∷◌, is_empty, trim_space, text_le-total,
  text_le-antisym, text_le_trans, ◌≡◌, refl, ap, ◌∙◌, arith, if◌then◌else◌,
}
use bomhort.Osv.{is_cve, text_lt, better, best_alias, cve_id}

is_cve-not_empty : (s : Text) → is_cve s ≡ true → is_empty s ≡ false
unfolding is_cve strip_prefix
is_cve-not_empty [] h = cc
is_cve-not_empty (c ∷ s) h = refl

smaller : Text → Text → Text
smaller best t = if is_cve t && (is_empty best || text_lt t best) then t else best

smaller_comm : (best x y : Text) → smaller (smaller best x) y ≡ smaller (smaller best y) x
unfolding smaller
smaller_comm best x y = ground (
  arith,
  is_cve-not_empty x,
  is_cve-not_empty y,
  text_le-total x y,
  text_le-antisym x y,
  text_le-total best x,
  text_le-total best y,
  text_le_trans best x y,
  text_le_trans best y x,
  text_le_trans x best y,
  text_le_trans y best x,
)

better_comm : (best x y : Text) → better (better best x) y ≡ better (better best y) x
unfolding better smaller
better_comm best x y = smaller_comm best (trim_space x) (trim_space y)

best_alias-Permᴰ :
    {xs ys : List Text} (best : Text) → Permᴰ xs ys → best_alias best xs ≡ best_alias best ys
unfolding best_alias
best_alias-Permᴰ best Permᴰ.nil = refl
best_alias-Permᴰ best (Permᴰ.cons {a} {b} {l₁} {l₂} e p) = rw e (best_alias-Permᴰ (better best b) p)
best_alias-Permᴰ best (Permᴰ.swap {a} {b} {a'} {b'} {l} e f) =
    rw (e, f) (ap (λ t. best_alias t l) (better_comm best b' a'))
best_alias-Permᴰ best (Permᴰ.trans p q) = best_alias-Permᴰ best p ∙ best_alias-Permᴰ best q

-- The CVE identifier of a finding is the same for its aliases in any order.
pub cve_id-Perm :
    (vuln_id : Text) (xs ys : List Text) → Perm xs ys → cve_id vuln_id xs ≡ cve_id vuln_id ys
unfolding cve_id
cve_id-Perm vuln_id xs ys p =
    let set : IsSet Text = hlevel in
    let same = ∥∥₁_elim p (set (best_alias [] xs) (best_alias [] ys)) (best_alias-Permᴰ []) in
    ap (λ t. if is_cve vuln_id then vuln_id else t) same
