-- ===== src/Binding/Negotiate.antt =====
-- negotiate of internal/binding/manager.go: the contract that both plugins of a binding keep.
use x_mock_mcp.Plugin.Descriptor.{has, Contract, Descriptor}
use x_mock_mcp.Prelude.Text.{sort_strings}
use x_mock_mcp.Prelude.Int.{eqb_ℤ}
use x_mock_mcp.Api.{Result, contract_mismatch, err, fail, ok}
use x_mock_mcp.Prelude.{
  Bool, List, Option, String, [], if◌then◌else◌, none, some, true, ◌&&◌, ◌==◌, ◌∷◌,
}

-- The loops over the contracts, in which a later contract of the wanted name and version wins.
unfoldable pub find_contract : Contract → Option Contract → List Contract → Option Contract
find_contract want found [] = found
find_contract want found (c ∷ cs) =
    find_contract want (if c.id == want.id && eqb_ℤ c.version want.version then some c else found)
      cs

-- The capabilities of the left plugin that the right one has too.
unfoldable pub shared : List String → List String → List String
unfolding has
shared [] rights = []
shared (c ∷ cs) rights = let rest = shared cs rights in if has rights c then c ∷ rest else rest

-- The loop over the wanted capabilities.
unfoldable pub all_in : List String → List String → Bool
unfolding has
all_in [] caps = true
all_in (c ∷ cs) caps = has caps c && all_in cs caps

-- What is agreed on between two contracts.
unfoldable pub agree : Contract → Contract → Contract → Result Contract
unfolding shared all_in sort_strings
agree want lc rc =
    let caps = shared lc.capabilities rc.capabilities in
    if all_in want.capabilities caps
    then ok (record want { capabilities = sort_strings caps })
    else err (fail contract_mismatch "required capability absent from intersection")

abbrev pub agree_on : Contract → Option Contract → Option Contract → Result Contract
agree_on want (some lc) (some rc) = agree want lc rc
agree_on want _ _ =
    err (fail contract_mismatch "left and right must support the requested contract version")

-- func negotiate
unfoldable pub negotiate : Descriptor → Descriptor → Contract → Result Contract
unfolding find_contract agree
negotiate left right want =
    agree_on want (find_contract want none left.contracts) (find_contract want none right.contracts)
