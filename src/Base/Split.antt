-- ===== src/Base/Split.antt =====
-- `str.split(sep)` of one character, `sep.join` and `str.strip()` of Python, on ASCII texts.
use mathlib.Core.List.{reverse, reverse-append, reverse-reverse, reverse-cons}
use sodtware_dev_ops_gp_proj.Base.Tests.{leb, ◌==◌, if◌then◌else◌}
use sodtware_dev_ops_gp_proj.Base.Codes.{Text}
use sodtware_dev_ops_gp_proj.Base.Lists.{All, All-append}
use Prim.Native.Nat.{ℕ}
use mathlib.Core.Path.{◌≡◌, refl, ap, ◌∙◌}
use mathlib.Core.Logic.{◌≢◌}
use mathlib.Core.Bool.{Bool, false, ◌&&◌, ◌||◌}
use mathlib.Core.List.{List, [], ◌∷◌, ◌++◌}
use native.Mathlib.Omega.{arith}

-- The first part grows by one character.
abbrev onto_first : ℕ → List Text → List Text
onto_first c [] = (c ∷ []) ∷ []
onto_first c (p ∷ ps) = (c ∷ p) ∷ ps

unfoldable pub split_on : ℕ → Text → List Text
split_on sep [] = [] ∷ []
split_on sep (c ∷ t) =
    let rest = split_on sep t in if c == sep then [] ∷ rest else onto_first c rest

unfoldable pub join : ℕ → List Text → Text
join sep [] = []
join sep (p ∷ []) = p
join sep (p ∷ q ∷ ps) = p ++ sep ∷ join sep (q ∷ ps)

abbrev pub Lacks : ℕ → Text → Type 0
Lacks sep = All (λ c. c ≢ sep)

pub split_on-Lacks : (sep : ℕ) (p : Text) → Lacks sep p → split_on sep p ≡ p ∷ []
unfolding split_on
split_on-Lacks sep [] h = refl
split_on-Lacks sep (c ∷ p) h = rw (split_on-Lacks sep p h.1) (ground arith)

pub split_on-append :
    (sep : ℕ) (p t : Text) → Lacks sep p → split_on sep (p ++ sep ∷ t) ≡ p ∷ split_on sep t
unfolding split_on
split_on-append sep [] t h = ground arith
split_on-append sep (c ∷ p) t h = rw (split_on-append sep p t h.1) (ground arith)

-- Splitting a join gives the parts back, if there is a part and none holds the separator.
pub split_on-join :
    (sep : ℕ) (p : Text) (ps : List Text)
    → All (Lacks sep) (p ∷ ps)
    → split_on sep (join sep (p ∷ ps)) ≡ p ∷ ps
unfolding join
split_on-join sep p [] h = split_on-Lacks sep p h.0
split_on-join sep p (q ∷ ps) h =
    split_on-append sep p (join sep (q ∷ ps)) h.0
    ∙ ap (λ (l : List Text). p ∷ l) (split_on-join sep q ps h.1)

-- What `str.strip()` strips of an ASCII text.
abbrev pub is_blank : ℕ → Bool
is_blank c = (leb 9 c && leb c 13) || (leb 28 c && leb c 32)

lstrip : Text → Text
lstrip [] = []
lstrip (c ∷ t) = let rest = lstrip t in if is_blank c then rest else c ∷ t

unfoldable pub strip : Text → Text
unfolding lstrip
strip t = reverse (lstrip (reverse (lstrip t)))

abbrev pub IsSolid : Text → Type 0
IsSolid = All (λ c. is_blank c ≡ false)

lstrip-IsSolid : (t : Text) → IsSolid t → lstrip t ≡ t
unfolding lstrip
lstrip-IsSolid [] h = refl
lstrip-IsSolid (c ∷ t) h = rw h.0

lstrip_end : (t : Text) (c : ℕ) → t ≢ [] → IsSolid t → lstrip (t ++ c ∷ []) ≡ t ++ c ∷ []
unfolding lstrip
lstrip_end [] c n h = absurd (n refl)
lstrip_end (d ∷ t) c n h = rw h.0

All-reverse {ℓ κ} : {A : Type ℓ} (P : A → Type κ) (xs : List A) → All P xs → All P (reverse xs)
All-reverse P [] h = tt
All-reverse P (x ∷ xs) h =
    rw (reverse-cons x xs) (All-append P (reverse xs) (x ∷ []) (All-reverse P xs h.1) (h.0, tt))

-- A line feed behind a text with no blanks is stripped, and nothing else.
pub strip-newline : (t : Text) → t ≢ [] → IsSolid t → strip (t ++ 10 ∷ []) ≡ t
unfolding strip
strip-newline t n h =
    rw (lstrip_end t 10 n h, reverse-append t (10 ∷ []))
      (unfold lstrip in rw (lstrip-IsSolid (reverse t) (All-reverse _ t h)) (reverse-reverse t))
