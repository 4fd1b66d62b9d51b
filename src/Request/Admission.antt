-- ===== src/Request/Admission.antt =====
-- The Admission Rules of crates/cao-core/src/admission.rs: the admitted work is a `u8`, a bit each.
use Prim.Native.Nat.{bit_and, min}
use cao.Shared.{
  ℕ, ◌-◌, ◌^◌, Bool, not, List, [], ◌∷◌, Option, none, some, ◌==◌, if◌then◌else◌, filter,
}
use cao.Routing.Kinds.{RequestedWork, WorkDefinition, requested_work_definitions}
use cao.Routing.Policy.{ProfileCapabilities, supports}
use cao.Request.Choices.{WorkChoices, necessary_level, full_level}

pub record Admission : Type 0 where
  pub work : ℕ  -- u8
  pub highest_mesh_level : ℕ

-- `work_bit`: the shift of the work's place in the enumeration.
unfoldable pub work_bit : RequestedWork → ℕ
work_bit RequestedWork.native_texture_optimization = 2 ^ 0
work_bit RequestedWork.standard_mesh_optimization = 2 ^ 1
work_bit RequestedWork.terrain_mesh_optimization = 2 ^ 2
work_bit RequestedWork.animation_optimization = 2 ^ 3
work_bit RequestedWork.archive_extraction = 2 ^ 4
work_bit RequestedWork.archive_creation = 2 ^ 5

-- `work &= !work_bit(requested)`
clear_bit : ℕ → RequestedWork → ℕ
unfolding work_bit
clear_bit set w = bit_and set (255 - work_bit w)

-- The loop over `work_capabilities()`.
unfoldable pub hold_back : ProfileCapabilities → List WorkDefinition → ℕ → ℕ
unfolding clear_bit
hold_back p [] set = set
hold_back p (d ∷ ds) set =
    hold_back p ds (if not (supports p d.capability) then clear_bit set d.work else set)

admitted_bits : Option ProfileCapabilities → ℕ
unfolding hold_back
admitted_bits none = 255
admitted_bits (some p) = hold_back p requested_work_definitions 255

-- `Admission::new`
unfoldable pub new : Bool → Option ProfileCapabilities → Admission
unfolding admitted_bits
new several_mods capabilities = record {
  work = admitted_bits capabilities;
  highest_mesh_level = if several_mods then necessary_level else full_level;
}

unfoldable pub admits : Admission → RequestedWork → Bool
unfolding work_bit
admits a w = not (bit_and a.work (work_bit w) == 0)

unfoldable pub admitted_work : Admission → List RequestedWork → List RequestedWork
admitted_work a ws = filter (admits a) ws

unfoldable pub admitted_work_choices : Admission → WorkChoices → WorkChoices
admitted_work_choices a c =
    let m = c.meshes in record c { meshes = record m { level = min m.level a.highest_mesh_level } }
