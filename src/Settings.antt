-- ===== src/Settings.antt =====
-- The configurations that the constructors of the producers and consumers take apart: objects as
-- functions from their keys, which are read, deleted from and copied with `Object.assign`. A value that
-- is `null` is not one of the model.
pub mod Producers
pub mod BlockProducers
pub mod Consumers
pub mod Choosing
pub mod Clients
pub mod Passing
pub mod Tests
use chain_indexer_framework.Prelude.{
  Bool, true, false, String, Option, none, some, List, [], ◌∷◌, if◌then◌else◌,
}
use chain_indexer_framework.Prelude.Int.{ℤ, pos, eq_ℤ}
use chain_indexer_framework.Prelude.Text.{str_eq}

pub data Value : Type 0 where
  undefined : Value
  whole : ℤ → Value
  written : String → Value
  flag : Bool → Value
  array : List String → Value

abbrev pub Config : Type 0
Config = String → Option Value

-- `config[key]`
unfoldable pub read : (key : String) → Config → Value
read key config = read_own (config key)
  where
    read_own : Option Value → Value
    read_own none = undefined
    read_own (some v) = v

-- `delete config[key]`, and one after the other for several keys.
unfoldable pub delete : (key : String) → Config → Config
delete key config other = if str_eq other key then none else config other

unfoldable pub delete_all : (keys : List String) → Config → Config
unfolding delete
delete_all [] config = config
delete_all (key ∷ keys) config = delete_all keys (delete key config)

-- `Object.assign(target, source)`: an entry of the source, or else that of the target.
abbrev pub either_own : Option Value → Option Value → Option Value
either_own none d = d
either_own (some v) d = some v

unfoldable pub object_assign : (target source : Config) → Config
object_assign target source key = either_own (source key) (target key)

-- An object literal.
unfoldable pub literal : List (String × Value) → Config
literal [] key = none
literal ((k, v) ∷ entries) key = if str_eq key k then some v else literal entries key

-- `v ?? d`
unfoldable pub coalesce : Value → (d : Value) → Value
coalesce undefined d = d
coalesce v d = v

-- `v || d`
unfoldable pub or_else : Value → (d : Value) → Value
or_else undefined d = d
or_else (whole n) d = if eq_ℤ n (pos 0) then d else whole n
or_else (written text) d = if str_eq text "" then d else written text
or_else (flag b) d = if b then flag b else d
or_else (array texts) d = array texts

-- `endpoints[0]` of an array; of no other value the code reads an entry.
unfoldable pub first_entry : Value → Value
first_entry (array (text ∷ texts)) = written text
first_entry v = undefined
