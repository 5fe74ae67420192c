-- ===== src/Plugin/Paths.antt =====
-- SafeRelative of pluginapi/validate.go, with what it uses of Go's package path.
use x_mock_mcp.Prelude.{
  Bool, List, String, false, if◌then◌else◌, nat_eq, not, true, ◌&&◌, ◌==◌, ◌||◌,
}
use mathlib.Core.List.{reverse}
use x_mock_mcp.Prelude.{String, List}
use x_mock_mcp.Catalog.Reference.{every}
use text.Mathlib.Text.{starts_with}
use Prim.Native.Char.{Char, code}
use Prim.Native.String.{◌++◌}

abbrev pub is_slash : Char → Bool
is_slash c = nat_eq (code c) 47

-- The text c ∷ s, as the head of the segments that begin with that of s.
abbrev pub push : Char → List String → List String
push c List.[] = List.◌∷◌ (String.◌∷◌ c "") List.[]
push c (List.◌∷◌ t l) = List.◌∷◌ (String.◌∷◌ c t) l

-- The parts between the slashes; there is always one more than there are slashes.
unfoldable pub segments : String → List String
segments String.[] = List.◌∷◌ "" List.[]
segments (String.◌∷◌ c s) =
    let rest = segments s in if is_slash c then List.◌∷◌ "" rest else push c rest

unfoldable pub join : List String → String
join List.[] = ""
join (List.◌∷◌ t List.[]) = t
join (List.◌∷◌ t (List.◌∷◌ u l)) = t ++ "/" ++ join (List.◌∷◌ u l)

-- One turn of the loop of path.Clean: `kept` are the segments written, the last one at its head.
unfoldable pub clean_segment : Bool → List String → String → List String
clean_segment rooted kept t =
    if t == "" || t == "."
    then kept
    else if t == ".."
    then elim kept [
      | List.[] ↦ if rooted then List.[] else (List.◌∷◌ ".." List.[])
      | List.◌∷◌ top under ↦ if top == ".." then List.◌∷◌ ".." (List.◌∷◌ top under) else under
    ]
    else List.◌∷◌ t kept

unfoldable pub clean_segments : Bool → List String → List String → List String
unfolding clean_segment
clean_segments rooted kept List.[] = kept
clean_segments rooted kept (List.◌∷◌ t l) = clean_segments rooted (clean_segment rooted kept t) l

-- path.IsAbs
abbrev pub is_abs : String → Bool
is_abs name = starts_with name "/"

abbrev pub written : Bool → List String → String
written true ts = "/" ++ join ts
written false List.[] = "."
written false (List.◌∷◌ t l) = join (List.◌∷◌ t l)

-- path.Clean
unfoldable pub clean : String → String
unfolding segments clean_segments join
clean name = written (is_abs name) (reverse (clean_segments (is_abs name) List.[] (segments name)))

-- The characters that strings.ContainsAny finds in "\\\x00:".
abbrev pub is_forbidden : Char → Bool
is_forbidden c = nat_eq (code c) 92 || nat_eq (code c) 0 || nat_eq (code c) 58

-- func SafeRelative
unfoldable pub safe_relative : String → Bool
unfolding clean every
safe_relative name =
    not (name == "")
    && not (name == ".")
    && every (λ c. not (is_forbidden c)) name
    && not (is_abs name)
    && clean name == name
    && not (name == "..")
    && not (starts_with name "../")
