-- ===== src/Queue/Array.antt =====
-- include/queue.h, `StealQueue::Array`: a circular buffer of pointers whose capacity is a power of 2.
pub mod Slots
use Prim.Native.Nat.{bit_and}
use native.Mathlib.Nat.{div-add-mod, mod-lt, one-le-pow}
use tiny_coro_build_your_own.Common.{
  ℕ, zero, suc, ◌+◌, ◌-◌, ◌*◌, ◌/◌, ◌%◌, ◌^◌, ◌≤◌, ◌<◌, ◌≡◌, refl, ◌≢◌, ◌∙◌, List, [], ◌∷◌, arith,
  sym, dec_lt, length, get_or, set, replicate, length-set, length-replicate,
}
use tiny_coro_build_your_own.Common.Bits.{bit_and-mask}

pub record Array : Type 0 where
  pub address : ℕ
  pub buffer : List ℕ
  pub cap : ℕ
  pub mask : ℕ

-- The constructor, at the address that the allocator gives.
unfoldable pub new_array : ℕ → ℕ → Array
new_array address c = record { address = address; buffer = replicate c 0; cap = c; mask = c - 1 }

-- An index out of the buffer is undefined behaviour in the source; `IsArray` rules it out.
unfoldable pub put : ℕ → ℕ → Array → Array
put i p a = record a { buffer = set a.buffer (bit_and i a.mask) p }

unfoldable pub get : ℕ → Array → ℕ
get i a = get_or a.buffer (bit_and i a.mask) 0

-- The loop of `resize`, from `i` on for `n` rounds.
unfoldable pub copy_range : Array → ℕ → ℕ → Array → Array
copy_range old i zero new = new
copy_range old i (suc n) new = copy_range old (suc i) n (put i (get i old) new)

unfoldable pub resize : ℕ → ℕ → ℕ → Array → Array
unfolding new_array copy_range
resize address b t a = copy_range a t (b - t) (new_array address (a.cap * 2))
