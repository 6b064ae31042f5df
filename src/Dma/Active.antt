-- ===== src/Dma/Active.antt =====
-- The controller's queue of active transfers: psxemu/include/psxemu/DmaController.hpp and
-- psxemu/source/psxemu/DmaController.cpp.
use psx.Base.{
  ℕ, zero, suc, ◌+◌, ◌-◌, ◌*◌, ◌/◌, ◌%◌, ◌^◌, Bool, not, ◌&&◌, ◌||◌, Option, none, some, List, ◌∷◌,
  ◌++◌, ◌==◌, ltb, if◌then◌else◌, get_elem?, take, drop, replicate,
}
use psx.Base.Words.{bit}
use psx.Cpu.State.{◌>>=◌}
use psx.Containers.Queue.{shifted}
use psx.Dma.Control.{Dicr, dicr_of_raw}

-- `Transfer`.
pub record ActiveTransfer : Type 0 where
  pub dma_id : ℕ
  pub dma_priority : ℕ

-- `control` is the raw register DPCR, and `active_dmas` an array of eight.
pub record Controller : Type 0 where
  pub control : ℕ
  pub int_control : Dicr
  pub active_dmas : List ActiveTransfer
  pub num_active : ℕ

abbrev pub no_transfer : ActiveTransfer
no_transfer = record { dma_id = 0; dma_priority = 0 }

unfoldable pub dma_controller : Controller
dma_controller = record {
  control = 0x0765_4321;
  int_control = dicr_of_raw 0;
  active_dmas = replicate 8 no_transfer;
  num_active = 0;
}

unfoldable pub channel_enabled : ℕ → Controller → Bool
channel_enabled id c = bit (id * 4 + 3) c.control == 1

abbrev pub priority : ℕ → Controller → ℕ
priority id c = c.control / 2 ^ (4 * id) % 2 ^ 3

-- Whether the loop of `AddTransfer` stops at a transfer.
unfoldable pub stops_at : ℕ → ℕ → ActiveTransfer → Bool
stops_at id prio t = ltb t.dma_priority prio || t.dma_priority == prio && ltb id t.dma_id

-- The loop, from a position down; an access past the array is none.
unfoldable pub find_place : ℕ → ℕ → List ActiveTransfer → ℕ → Option ℕ
find_place id prio ts zero = some 0
find_place id prio ts (suc pos) =
    let rest = find_place id prio ts pos in
    get_elem? ts (suc pos) >>= λ t. if stops_at id prio t then some (suc pos) else rest

-- The array from `pos` on goes up by one, and its last transfer is lost.
unfoldable pub insert_at : ℕ → ActiveTransfer → List ActiveTransfer → List ActiveTransfer
insert_at pos t ts = take pos ts ++ (t ∷ take (7 - pos) (drop pos ts))

-- `AddTransfer`, which stops where seven transfers are active.
unfoldable pub add_transfer : ℕ → Controller → Option Controller
add_transfer id c =
    let prio = priority id c in
    if c.num_active == 7
    then none
    else if not (channel_enabled id c)
    then some c
    else find_place id prio c.active_dmas c.num_active >>= λ pos. some (record c {
      active_dmas = insert_at pos (record { dma_id = id; dma_priority = prio }) c.active_dmas;
      num_active = c.num_active + 1;
    })

-- `RemoveTransfer`.
unfoldable pub remove_transfer : Controller → Controller
remove_transfer c =
    if c.num_active == 0
    then c
    else record c { active_dmas = shifted 8 1 c.active_dmas; num_active = c.num_active - 1 }

abbrev pub has_active_transfer : Controller → Bool
has_active_transfer c = not (c.num_active == 0)
