-- ===== src/Reference/Causelib/Parsed.antt =====
-- reference/causelib.py, `parse_scrubbed`, on what public_errors.py publishes.
use Prim.Native.Char.{Char, code}
use autobench.Prelude.{
  ℕ, suc, String, ◌⧺◌, Bool, true, false, ◌&&◌, some, List, [], ◌∷◌, ◌≡◌, refl, sym, ap, ◌∙◌, arith,
  any, all, ◌==◌, eq_iff, eqb, truthy, is_some, Bool-cases, inl, inr,
}
use mathlib.Core.Path.{subst}
use text.Mathlib.TextLemmas.{nil-append, cons-append}
use autobench.Prelude.Text.{is_space, rstrip_spaces, lstrip_spaces, strip, without_prefix}
use autobench.Prelude.Dict.{get}
use autobench.PublicErrors.{categories, causes, published, public_error, classify, is_blank}
use autobench.PublicErrors.Closed.{IsCategory, classify_total}
use autobench.Reference.Causelib.{
  is_slug_char, is_hex_char, span, exactly, shape_end, shape_digits, parse_shape, parse_scrubbed,
  slug_labels,
}

-- The whole text passes the test.
abbrev pub every : (Char → Bool) → String → Bool
every test String.[] = true
every test (String.◌∷◌ c rest) = test c && every test rest

abbrev pub is_slug : String → Bool
is_slug text = truthy text && every is_slug_char text

abbrev pub count : String → ℕ
count String.[] = 0
count (String.◌∷◌ c rest) = suc (count rest)

-- Eight digits of a shape.
abbrev pub is_shape : String → Bool
is_shape text = eqb (count text) 8 && every is_hex_char text

slug_not_space : (c : Char) → is_slug_char c ≡ true → is_space (code c) ≡ false
unfolding is_slug_char is_space
slug_not_space c h = ground arith

-- What begins with no space and ends with none is stripped to itself.
rstrip-keeps :
    (s t : String)
    → rstrip_spaces t ≡ t
    → truthy t ≡ true
    → (rstrip_spaces (s ⧺ t) ≡ s ⧺ t) × (truthy (s ⧺ t) ≡ true)
unfolding rstrip_spaces
rstrip-keeps String.[] t h k = rw (nil-append t) (h, k)
rstrip-keeps (String.◌∷◌ c s) t h k =
    rw (cons-append c s t) (ground (arith, rstrip-keeps s t h k), refl)

-- A front that passes, before a character that does not.
span-append :
    (test : Char → Bool) (s : String) (c : Char) (t : String)
    → every test s ≡ true
    → test c ≡ false
    → span test (s ⧺ String.◌∷◌ c t) ≡ (s, String.◌∷◌ c t)
unfolding span
span-append test String.[] c t h k = rw (nil-append (String.◌∷◌ c t)) (rw k refl)
span-append test (String.◌∷◌ d s) c t h k =
    rw (cons-append d s (String.◌∷◌ c t)) (ground (arith, span-append test s c t))

exactly-append :
    (test : Char → Bool) (s t : String)
    → every test s ≡ true
    → exactly (count s) test (s ⧺ t) ≡ some (s, t)
unfolding exactly
exactly-append test String.[] t h = rw (nil-append t) refl
exactly-append test (String.◌∷◌ c s) t h =
    rw (cons-append c s t) (ground (arith, exactly-append test s t))

-- The strip of a text that begins with no space.
strip-keeps :
    (c : Char) (s t : String)
    → is_space (code c) ≡ false
    → rstrip_spaces t ≡ t
    → truthy t ≡ true
    → strip (String.◌∷◌ c s ⧺ t) ≡ String.◌∷◌ c s ⧺ t
unfolding lstrip_spaces
strip-keeps c s t h k e =
    let kept = (rstrip-keeps (String.◌∷◌ c s) t k e).0 in
    rw (cons-append c s t) (rw h (subst (λ u. rstrip_spaces u ≡ u) (cons-append c s t) kept))

tail_kept :
    (shape : String)
    → (rstrip_spaces (" (shape " ⧺ (shape ⧺ ")")) ≡ " (shape " ⧺ (shape ⧺ ")"))
      × (truthy (" (shape " ⧺ (shape ⧺ ")")) ≡ true)
unfolding rstrip_spaces is_space
tail_kept shape =
    let (kept, nonempty) = rstrip-keeps shape ")" refl refl in
    rstrip-keeps " (shape " (shape ⧺ ")") kept nonempty

without_prefix-append : (prefix t : String) → without_prefix prefix (prefix ⧺ t) ≡ some t
unfolding without_prefix
without_prefix-append String.[] t = rw (nil-append t) refl
without_prefix-append (String.◌∷◌ c prefix) t =
    rw (cons-append c prefix t) (ground (arith, without_prefix-append prefix t))

count_hex :
    (shape : String) → is_shape shape ≡ true → (count shape ≡ 8) × (every is_hex_char shape ≡ true)
count_hex shape h = (ground arith, ground arith)

parse_shape-published :
    (shape : String) → is_shape shape ≡ true → parse_shape (" (shape " ⧺ (shape ⧺ ")")) ≡ some shape
unfolding parse_shape
parse_shape-published shape h =
    let (eight, hex) = count_hex shape h in
    ap shape_digits (without_prefix-append " (shape " (shape ⧺ ")"))
    ∙ ap shape_end (
        subst (λ n. exactly n is_hex_char (shape ⧺ ")") ≡ some (shape, ")")) eight
          (exactly-append is_hex_char shape ")" hex))

slug_parts :
    (c : Char) (s : String)
    → is_slug (String.◌∷◌ c s) ≡ true
    → (is_slug_char c ≡ true) × (every is_slug_char (String.◌∷◌ c s) ≡ true)
slug_parts c s h = (ground arith, ground arith)

span-published :
    (category rest : String)
    → every is_slug_char category ≡ true
    → span is_slug_char (category ⧺ (" (shape " ⧺ rest)) ≡ (category, " (shape " ⧺ rest)
unfolding is_slug_char
span-published category rest h =
    subst (λ u. span is_slug_char (category ⧺ u) ≡ (category, u))
      (sym (cons-append " " "(shape " rest))
      (span-append is_slug_char category " " ("(shape " ⧺ rest) h refl)

-- The published text, with its first character before the rest.
scanned :
    (c : Char) (s shape : String)
    → is_slug (String.◌∷◌ c s) ≡ true
    → is_shape shape ≡ true
    → parse_scrubbed (some (published (String.◌∷◌ c s) shape)) ≡ some (String.◌∷◌ c s, shape)
unfolding parse_scrubbed published
scanned c s shape h k =
    let (kept, nonempty) = tail_kept shape in
    let (first, slug) = slug_parts c s h in
    let stripped =
      strip-keeps c s (" (shape " ⧺ (shape ⧺ ")")) (slug_not_space c first) kept nonempty in
    rw stripped (
      rw (span-published (String.◌∷◌ c s) (shape ⧺ ")") slug)
        (rw (parse_shape-published shape k) refl))

-- A category of small letters and underscores, not empty, and a shape of eight hexadecimal digits are read
-- back from the text that publishes them.
pub parse_scrubbed-published :
    (category shape : String)
    → is_slug category ≡ true
    → is_shape shape ≡ true
    → parse_scrubbed (some (published category shape)) ≡ some (category, shape)
parse_scrubbed-published String.[] shape h k = absurd (ground arith)
parse_scrubbed-published (String.◌∷◌ c s) shape h k = scanned c s shape h k

all-any :
    (test : String → Bool) (text : String) (texts : List String)
    → all test texts ≡ true
    → any (λ t. t == text) texts ≡ true
    → test text ≡ true
unfolding all any
all-any test text [] h k = absurd (ground arith)
all-any test text (t ∷ texts) h k = elim (Bool-cases (t == text)) [
  | inl e ↦ subst (λ u. test u ≡ true) {x = t} ((eq_iff t text).0 e) (ground arith)
  | inr e ↦ all-any test text texts (ground arith) (ground arith)
]

is_labelled : String → Bool
is_labelled category = is_slug category && is_some (get category slug_labels)

categories_labelled : all is_labelled categories ≡ true
unfolding is_labelled all categories causes get slug_labels is_slug_char
categories_labelled = refl

labelled_parts :
    (category : String)
    → IsCategory category
    → (is_slug category ≡ true) × (is_some (get category slug_labels) ≡ true)
unfolding is_labelled
labelled_parts category h =
    let both = all-any is_labelled category categories categories_labelled h in
    (ground arith, ground arith)

-- What the Service publishes of an error that is not blank is read back as the category that it was
-- classified by and its shape, as long as a shape has eight hexadecimal digits; and this category has a
-- label of its own.
pub parse_scrubbed-public_error :
    (shape_id : String → String) (message : String)
    → is_blank message ≡ false
    → is_shape (shape_id message) ≡ true
    → (category : String) × (classify (some message) ≡ some category)
      × (parse_scrubbed (public_error shape_id (some message)) ≡ some (category, shape_id message))
      × (is_some (get category slug_labels) ≡ true)
unfolding public_error
parse_scrubbed-public_error shape_id message h k = elim (classify_total message) [
  | inl (blank, _) ↦ absurd (ground arith)
  | inr (_, category, e, known) ↦
      let (slug, labelled) = labelled_parts category known in
      (
        category,
        e,
        rw (e, public_error) (parse_scrubbed-published category (shape_id message) slug k),
        labelled,
      )
]
