-- ===== src/Catalog/Reference.antt =====
-- Reference of pluginapi/manifest.go, with Validate, Key and ValidDigest of pluginapi/validate.go.
use x_mock_mcp.Api.{Failure, invalid}
use x_mock_mcp.Prelude.{
  Bool, Option, String, false, if◌then◌else◌, leb, nat_eq, none, some, suc, true, zero, ℕ, ◌&&◌,
  ◌+◌, ◌==◌, ◌||◌,
}
use Prim.Native.String.{[], ◌∷◌, ◌++◌, count, find, slice, len}
use Prim.Native.Char.{Char, code}

pub data Role : Type 0 where
  left right : Role
  other_role : String → Role

pub record Reference : Type 0 where
  pub role : Role
  pub id : String
  pub version : String

abbrev pub role_text : Role → String
role_text left = "left"
role_text right = "right"
role_text (other_role text) = text

-- func (r Reference) Key, which is also the place of the package below the plugins' directory
unfoldable pub key : Reference → String
key r = role_text r.role ++ "/" ++ r.id ++ "/" ++ r.version

abbrev pub in_range : ℕ → ℕ → Char → Bool
in_range low high c = leb low (code c) && leb (code c) high

abbrev pub is_digit : Char → Bool
is_digit c = in_range b'0' b'9' c

unfoldable pub every : (Char → Bool) → String → Bool
every p [] = true
every p (c ∷ s) = p c && every p s

-- ^[a-z][a-z0-9-]{0,63}$
unfoldable pub is_id : String → Bool
unfolding every
is_id [] = false
is_id (c ∷ s) =
    in_range b'a' b'z' c
    && leb (count s) 63
    && every (λ d. in_range b'a' b'z' d || is_digit d || nat_eq (code d) b'-') s

-- 0|[1-9][0-9]*
unfoldable pub is_number : String → Bool
unfolding every
is_number [] = false
is_number (c ∷ s) = (nat_eq (code c) b'0' && s == "") || (in_range b'1' b'9' c && every is_digit s)

-- Three numbers with a dot after each but the last: `left_dots` are still to come.
unfoldable pub is_numbers : ℕ → String → Bool
unfolding is_number
is_numbers zero s = is_number s
is_numbers (suc left_dots) s =
    let at = find s "." in
    leb (at + 1) (len s)
    && is_number (slice s 0 at)
    && is_numbers left_dots (slice s (at + 1) (len s))

abbrev pub is_known_role : Role → Bool
is_known_role (other_role text) = false
is_known_role _ = true

-- func (r Reference) Validate; `none` is success.
unfoldable pub validate : Reference → Option Failure
unfolding is_id is_numbers
validate r =
    if is_id r.id && is_numbers 2 r.version && is_known_role r.role
    then none
    else some (invalid "invalid plugin reference")

-- func ValidDigest
unfoldable pub valid_digest : String → Bool
unfolding every
valid_digest s = nat_eq (count s) 64 && every (λ d. is_digit d || in_range b'a' b'f' d) s
