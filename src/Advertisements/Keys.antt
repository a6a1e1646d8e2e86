-- ===== src/Advertisements/Keys.antt =====
-- The keys of `_CONFIG_CACHE`, `_build_cache_key` of app/services/advertisement.py.
use Prim.Native.Char.{Char, char, code}
use Prim.Native.String.{◌++◌}
use text.Mathlib.TextLemmas.{nil-append, cons-append}
use naicha_backend.Prelude.{
  All, Bool, List, String, [], ap, arith, false, not, refl, sym, true, ◌&&◌, ◌==◌, ◌∙◌, ◌∷◌, ◌≡◌,
}

abbrev pub comma : Char
comma = char 44 tt

abbrev pub colon : Char
colon = char 58 tt

abbrev pub has_no_slot : List String → Bool
has_no_slot [] = true
has_no_slot (x ∷ xs) = false

-- `','.join`
unfoldable pub join : List String → String
join [] = ""
join (slot ∷ []) = slot
join (slot ∷ next ∷ slots) = let rest = join (next ∷ slots) in slot ++ String.◌∷◌ comma rest

unfoldable pub build_cache_key : List String → String → String
unfolding join
build_cache_key slots platform = platform ++ String.◌∷◌ colon (join slots)

-- A text without that character.
abbrev pub lacks : Char → String → Bool
lacks k String.[] = true
lacks k (String.◌∷◌ c s) = not (code c == code k) && lacks k s

-- Slots and a platform whose key can be read in one way only.
pub record IsPlain (slots : List String) (platform : String) : Type 0 where
  pub some_slot : has_no_slot slots ≡ false
  pub commas : All (λ slot. lacks comma slot ≡ true) slots
  pub colons : lacks colon platform ≡ true

cons_parts : {c d : Char} {s t : String} → String.◌∷◌ c s ≡ String.◌∷◌ d t → (c ≡ d) × (s ≡ t)
cons_parts same = (cc same, cc same)

-- What stands before the first separator, and what after it.
split :
    (k : Char) (p q s t : String)
    → lacks k p ≡ true
    → lacks k q ≡ true
    → p ++ String.◌∷◌ k s ≡ q ++ String.◌∷◌ k t
    → (p ≡ q) × (s ≡ t)
split k String.[] String.[] s t hp hq same =
    let parts =
      cons_parts (sym (nil-append (String.◌∷◌ k s)) ∙ same ∙ nil-append (String.◌∷◌ k t)) in
    (refl, parts.1)
split k String.[] (String.◌∷◌ d q) s t hp hq same =
    let parts =
      cons_parts (sym (nil-append (String.◌∷◌ k s)) ∙ same ∙ cons-append d q (String.◌∷◌ k t)) in
    absurd (ground (arith, ap code parts.0, hq))
split k (String.◌∷◌ c p) String.[] s t hp hq same =
    let parts =
      cons_parts (sym (cons-append c p (String.◌∷◌ k s)) ∙ same ∙ nil-append (String.◌∷◌ k t)) in
    absurd (ground (arith, ap code parts.0, hp))
split k (String.◌∷◌ c p) (String.◌∷◌ d q) s t hp hq same =
    let parts =
      cons_parts
        (sym (cons-append c p (String.◌∷◌ k s)) ∙ same ∙ cons-append d q (String.◌∷◌ k t)) in
    let rest = split k p q s t (ground (arith, hp)) (ground (arith, hq)) parts.1 in
    (cc (parts.0, rest.0), rest.1)

-- A text without the separator is none that has it.
lacks-append : (k : Char) (p s : String) → lacks k (p ++ String.◌∷◌ k s) ≡ false
lacks-append k String.[] s = rw (nil-append (String.◌∷◌ k s)) (ground arith)
lacks-append k (String.◌∷◌ c p) s =
    rw (cons-append c p (String.◌∷◌ k s)) (ground (arith, lacks-append k p s))

unsplit : (k : Char) (p q s : String) → lacks k p ≡ true → ¬ p ≡ q ++ String.◌∷◌ k s
unsplit k p q s h same =
    let lost : lacks k p ≡ false = ap (lacks k) same ∙ lacks-append k q s in
    absurd (ground (arith, h, lost))

join-eq :
    (ts us : List String)
    → has_no_slot ts ≡ false
    → has_no_slot us ≡ false
    → All (λ slot. lacks comma slot ≡ true) ts
    → All (λ slot. lacks comma slot ≡ true) us
    → join ts ≡ join us
    → ts ≡ us
unfolding join
join-eq [] us some_t some_u ht hu same = absurd (ground (arith, some_t))
join-eq (t ∷ ts) [] some_t some_u ht hu same = absurd (ground (arith, some_u))
join-eq (t ∷ []) (u ∷ []) some_t some_u ht hu same = cc same
join-eq (t ∷ []) (u ∷ u' ∷ us) some_t some_u ht hu same =
    absurd (unsplit comma t u (join (u' ∷ us)) ht.0 same)
join-eq (t ∷ t' ∷ ts) (u ∷ []) some_t some_u ht hu same =
    absurd (unsplit comma u t (join (t' ∷ ts)) hu.0 (sym same))
join-eq (t ∷ t' ∷ ts) (u ∷ u' ∷ us) some_t some_u ht hu same =
    let parts = split comma t u (join (t' ∷ ts)) (join (u' ∷ us)) ht.0 hu.0 same in
    let rest = join-eq (t' ∷ ts) (u' ∷ us) refl refl ht.1 hu.1 parts.1 in cc (parts.0, rest)

-- Plain slots and platforms with the same key are the same.
pub build_cache_key-eq :
    (slots slots' : List String) (platform platform' : String)
    → IsPlain slots platform
    → IsPlain slots' platform'
    → build_cache_key slots platform ≡ build_cache_key slots' platform'
    → (slots ≡ slots') × (platform ≡ platform')
unfolding build_cache_key
build_cache_key-eq slots slots' platform platform' h h' same =
    let parts = split colon platform platform' (join slots) (join slots') h.colons h'.colons same in
    (join-eq slots slots' h.some_slot h'.some_slot h.commas h'.commas parts.1, parts.0)
