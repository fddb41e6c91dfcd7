-- ===== src/Evm/Forks.antt =====
-- internal/evm/forkdefs.go: the registry of instruction sets. A Go map has no order; the list has
-- the order of the source.
mod Frontier
mod Later
use geas.Prelude.{List, [], ◌∷◌, String}
use geas.Evm.Defs.{InstructionSetDef}
unfoldable pub use Frontier.{frontier}
unfoldable pub use Later.{
  homestead, tangerinewhistle, spuriousdragon, byzantium, petersburg, constantinople, istanbul,
  berlin, london, paris, shanghai, cancun, prague, osaka, amsterdam, tron,
}

abbrev pub latest_fork : String
latest_fork = "osaka"

unfoldable pub fork_reg : List (String × InstructionSetDef)
unfolding frontier homestead tangerinewhistle spuriousdragon byzantium petersburg constantinople
    istanbul berlin london paris shanghai cancun prague osaka amsterdam tron
fork_reg =
    ("frontier", frontier)
    ∷ ("homestead", homestead)
    ∷ ("tangerinewhistle", tangerinewhistle)
    ∷ ("spuriousdragon", spuriousdragon)
    ∷ ("byzantium", byzantium)
    ∷ ("petersburg", petersburg)
    ∷ ("constantinople", constantinople)
    ∷ ("istanbul", istanbul)
    ∷ ("berlin", berlin)
    ∷ ("london", london)
    ∷ ("paris", paris)
    ∷ ("shanghai", shanghai)
    ∷ ("cancun", cancun)
    ∷ ("prague", prague)
    ∷ ("osaka", osaka)
    ∷ ("amsterdam", amsterdam)
    ∷ ("tron", tron)
    ∷ []
