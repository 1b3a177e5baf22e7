-- ===== src/Prelude/Map.antt =====
-- Python's `dict` with text keys, as the function that looks a key up. No program modelled here reads
-- the order of the entries.
use mathlib.Core.Bool.{Bool}
use mathlib.Core.Option.{Option, none, some}
use Prim.Native.String.{String}
use text.Mathlib.Text.{◌==◌ as str_eq}
use eap.Prelude.Tests.{if◌then◌else◌}

abbrev pub Map {ℓ} : Type ℓ → Type ℓ
Map V = String → Option V

module _ {ℓ} {V : Type ℓ} where
  abbrev pub empty : Map V
  empty j = none

  abbrev pub put : String → V → Map V → Map V
  put k v m j = if str_eq k j then some v else m j

  abbrev pub remove : String → Map V → Map V
  remove k m j = if str_eq k j then none else m j

  abbrev pub keep_if : (V → Bool) → Option V → Option V
  keep_if p none = none
  keep_if p (some v) = if p v then some v else none

  -- deletes every entry whose value fails the test
  abbrev pub retain : (V → Bool) → Map V → Map V
  retain p m j = keep_if p (m j)
