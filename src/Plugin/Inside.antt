-- ===== src/Plugin/Inside.antt =====
-- SafeRelative of pluginapi/validate.go: a path that it lets through stays below its directory.
use x_mock_mcp.Plugin.Paths.{
  is_abs, is_forbidden, clean, safe_relative, written, clean_segment, clean_segments, is_slash,
  join, push, segments,
}
use x_mock_mcp.Prelude.{
  Bool, ◌&&◌, subst, sym, eq_iff, if◌then◌else◌, inl, inr, ◌==◌, ◌||◌, ◌⊎◌, arith, All, List,
  String, ap, false, if_elim, not, refl, true, ◌∙◌, ◌≡◌, ◌≢◌,
}
use Prim.Native.Char.{Char}
use text.Mathlib.Text.{starts_with}
use text.Mathlib.TextPositions.{starts_with-append}
use mathlib.Core.List.{reverse, reverse_aux}
use x_mock_mcp.Catalog.Reference.{every}
use Prim.Native.String.{◌++◌}
use text.Mathlib.TextLemmas.{nil-append, cons-append, append_assoc}

-- A segment that names something in the directory where it stands.
pub record IsOrdinary (t : String) : Type 0 where
  pub named : t ≢ ""
  pub not_here : t ≢ "."
  pub not_up : t ≢ ".."

abbrev pub HasNoSlash : String → Type 0
HasNoSlash t = every (λ c. not (is_slash c)) t ≡ true

push-HasNoSlash :
    (c : Char) (l : List String) → is_slash c ≡ false → All HasNoSlash l → All HasNoSlash (push c l)
unfolding every
push-HasNoSlash c List.[] h g = (simp (every, h) refl, tt)
push-HasNoSlash c (List.◌∷◌ t l) h (free, others) = (simp (every, h, free) refl, others)

segments-HasNoSlash : (s : String) → All HasNoSlash (segments s)
unfolding segments every
segments-HasNoSlash String.[] = (refl, tt)
segments-HasNoSlash (String.◌∷◌ c s) =
    if_elim (All HasNoSlash) (is_slash c) _ _ (λ h. (refl, segments-HasNoSlash s))
      (λ h. push-HasNoSlash c (segments s) h (segments-HasNoSlash s))

first_ordinary : (c : Char) (t : String) → HasNoSlash (String.◌∷◌ c t) → is_slash c ≡ false
unfolding every
first_ordinary c t h = ground arith

rest_ordinary : (c : Char) (t : String) → HasNoSlash (String.◌∷◌ c t) → HasNoSlash t
unfolding every
rest_ordinary c t h = ground arith

-- What is written after a slash-free text and a slash are its segments, behind that text.
segments-append : (t r : String) → HasNoSlash t → segments (t ++ "/" ++ r) ≡ List.◌∷◌ t (segments r)
unfolding segments
segments-append String.[] r h = ap segments (nil-append ("/" ++ r)) ∙ slash
  where
    slash : segments ("/" ++ r) ≡ List.◌∷◌ "" (segments r)
    slash =
        ap segments (cons-append "/" "" r) ∙ ap (λ t. segments (String.◌∷◌ "/" t)) (nil-append r)
segments-append (String.◌∷◌ c t) r h =
    ap segments (cons-append c t ("/" ++ r))
    ∙ simp (segments, first_ordinary c t h, segments-append t r (rest_ordinary c t h)) refl

segments-one : (t : String) → HasNoSlash t → segments t ≡ List.◌∷◌ t List.[]
unfolding segments
segments-one String.[] h = refl
segments-one (String.◌∷◌ c t) h =
    simp (segments, first_ordinary c t h, segments-one t (rest_ordinary c t h)) refl

-- Segments that are joined are found again.
pub segments-join :
    (t : String) (l : List String)
    → All HasNoSlash (List.◌∷◌ t l)
    → segments (join (List.◌∷◌ t l)) ≡ List.◌∷◌ t l
unfolding join
segments-join t List.[] (h, hs) = segments-one t h
segments-join t (List.◌∷◌ u l) (h, hs) =
    segments-append t (join (List.◌∷◌ u l)) h ∙ ap (λ x. List.◌∷◌ t x) (segments-join u l hs)

-- The segments kept so far, the last one first: ordinary ones, above steps up.
abbrev IsClean : List String → Type 0
IsClean List.[] = Unit
IsClean (List.◌∷◌ t l) =
    HasNoSlash t × ((IsOrdinary t × IsClean l) ⊎ ((t ≡ "..") × All (λ u. u ≡ "..") l × IsClean l))

below : (t : String) (l : List String) → IsClean (List.◌∷◌ t l) → IsClean l
below t l (free, inl h) = h.1
below t l (free, inr h) = h.2

climb :
    (kept : List String)
    → IsClean kept
    → IsClean (elim kept [
      | List.[] ↦ List.◌∷◌ ".." List.[]
      | List.◌∷◌ top under ↦ if top == ".." then List.◌∷◌ ".." (List.◌∷◌ top under) else under
    ])
unfolding every
climb List.[] h = (refl, inr (refl, tt, tt))
climb (List.◌∷◌ top under) h =
    if_elim IsClean (top == "..") _ _
      (λ up. (refl, inr (refl, ((eq_iff top "..").0 up, dots ((eq_iff top "..").0 up) h), h)))
      (λ down. below top under h)
  where
    dots : top ≡ ".." → IsClean (List.◌∷◌ top under) → All (λ u. u ≡ "..") under
    dots up (free, inl g) = absurd (g.0.not_up up)
    dots up (free, inr g) = g.1

clean_segment-IsClean :
    (kept : List String) (t : String)
    → IsClean kept
    → HasNoSlash t
    → IsClean (clean_segment false kept t)
unfolding clean_segment
clean_segment-IsClean kept t h free =
    if_elim IsClean (t == "" || t == ".") _ _ (λ e. h)
      (λ named.
        if_elim IsClean (t == "..") _ _ (λ up. climb kept h)
          (λ down. (free, inl (ordinary named down, h))))
  where
    ordinary : (t == "" || t == ".") ≡ false → (t == "..") ≡ false → IsOrdinary t
    ordinary named down = record {
      named = λ p. ground (arith, named, eq_iff t "");
      not_here = λ p. ground (arith, named, eq_iff t ".");
      not_up = λ p. ground (arith, down, eq_iff t "..");
    }

clean_segments-IsClean :
    (kept l : List String) → IsClean kept → All HasNoSlash l → IsClean (clean_segments false kept l)
unfolding clean_segments
clean_segments-IsClean kept List.[] h g = h
clean_segments-IsClean kept (List.◌∷◌ t l) h (free, others) =
    clean_segments-IsClean (clean_segment false kept t) l (clean_segment-IsClean kept t h free)
      others

-- Reversed, the segments are all ordinary, or the first of them is a step up.
abbrev BeginsUp : List String → Type 0
BeginsUp List.[] = ⊥
BeginsUp (List.◌∷◌ t l) = t ≡ ".."

All-up :
    (l done : List String) → All (λ u. u ≡ "..") l → BeginsUp done → BeginsUp (reverse_aux l done)
All-up List.[] done h g = g
All-up (List.◌∷◌ t l) done (up, others) g = All-up l (List.◌∷◌ t done) others up

turned :
    (l : List String)
    → IsClean l
    → All IsOrdinary l ⊎ ((done : List String) → BeginsUp (reverse_aux l done))
turned List.[] h = inl tt
turned (List.◌∷◌ t l) (free, inr (up, dots, h)) = inr (λ done. All-up l (List.◌∷◌ t done) dots up)
turned (List.◌∷◌ t l) (free, inl (named, h)) = elim (turned l h) [
  | inl all ↦ inl (named, all)
  | inr up ↦ inr (λ done. up (List.◌∷◌ t done))
]

All-reverse_aux :
    (Good : String → Type 0) (l done : List String)
    → All Good l
    → All Good done
    → All Good (reverse_aux l done)
All-reverse_aux Good List.[] done h g = g
All-reverse_aux Good (List.◌∷◌ t l) done (first, others) g =
    All-reverse_aux Good l (List.◌∷◌ t done) others (first, g)

IsClean-HasNoSlash : (l : List String) → IsClean l → All HasNoSlash l
IsClean-HasNoSlash List.[] h = tt
IsClean-HasNoSlash (List.◌∷◌ t l) h = (h.0, IsClean-HasNoSlash l (below t l h))

goes_up : (r : String) → starts_with (".." ++ "/" ++ r) "../" ≡ true
goes_up r =
    subst (λ (s : String). starts_with s "../" ≡ true) (append_assoc ".." "/" r)
      (starts_with-append "../" r)

-- A text that is written from such segments, and is neither "." nor begins with a step up.
written_inside :
    (name : String) (l : List String)
    → written false l ≡ name
    → All HasNoSlash l
    → All IsOrdinary l ⊎ BeginsUp l
    → (name == ".") ≡ false
    → (name == "..") ≡ false
    → starts_with name "../" ≡ false
    → All IsOrdinary (segments name)
unfolding join
written_inside name List.[] is free good here up out =
    absurd (ground (arith, here, (eq_iff name ".").1 (sym is)))
written_inside name (List.◌∷◌ t l) is free (inl all) here up out =
    subst (λ (n : String). All IsOrdinary (segments n)) is
      (subst (All IsOrdinary) (sym (segments-join t l free)) all)
written_inside name (List.◌∷◌ t List.[]) is free (inr u) here up out =
    absurd (ground (arith, up, (eq_iff name "..").1 (sym is ∙ u)))
written_inside name (List.◌∷◌ t (List.◌∷◌ v l)) is free (inr u) here up out = absurd (
    ground (
      arith,
      out,
      subst (λ (n : String). starts_with n "../" ≡ true)
          (sym (ap (λ (x : String). x ++ "/" ++ join (List.◌∷◌ v l)) u) ∙ is)
          (goes_up (join (List.◌∷◌ v l))),
    ))

-- A name that SafeRelative accepts consists of ordinary segments alone: it is neither absolute nor
-- has an empty segment, "." or "..".
pub safe_relative-inside :
    (name : String) → safe_relative name ≡ true → All IsOrdinary (segments name)
unfolding safe_relative clean
safe_relative-inside name h =
    let (here, flat, same, up, out) =
      parts (not (name == "")) (name == ".") (every (λ c. not (is_forbidden c)) name) (is_abs name)
        (clean name == name) (name == "..") (starts_with name "../") h in
    let l = clean_segments false List.[] (segments name) in
    let clean_ = clean_segments-IsClean List.[] (segments name) tt (segments-HasNoSlash name) in
    written_inside name (reverse l)
      (subst (λ (b : Bool). written b (reverse (clean_segments b List.[] (segments name))) ≡ name)
        flat ((eq_iff (clean name) name).0 same))
      (All-reverse_aux HasNoSlash l List.[] (IsClean-HasNoSlash l clean_) tt)
      (elim (turned l clean_) [
        | inl all ↦ inl (All-reverse_aux IsOrdinary l List.[] all tt)
        | inr up_ ↦ inr (up_ List.[])
      ])
      here up out
  where
    parts :
        (a b c d e f g : Bool)
        → (a && not b && c && not d && e && not f && not g) ≡ true
        → (b ≡ false) × (d ≡ false) × (e ≡ true) × (f ≡ false) × (g ≡ false)
    parts a b c d e f g h = (ground arith, ground arith, ground arith, ground arith, ground arith)
