-- ===== src/Remote.antt =====
-- source/daemon/remote_memory.c: reading the memory of the target process.
-- The kernel call `mach_vm_read_overwrite` is the parameter `vm` of every reader: `none` is any
-- status but KERN_SUCCESS, and `some bs` are the bytes stored, whose number is `outsize`. One
-- call of an operation sees one snapshot of the target. A buffer is the list of its bytes, and a
-- string buffer the bytes before its NUL. No caller passes a null buffer.
pub mod Memory
pub mod Fetch
pub mod Text
pub mod Values
mod Tests
use perfect_build_radar_touc.Base.{
  ℕ, zero, suc, ◌-◌, ◌^◌, Bool, true, false, not, List, [], ◌∷◌, ◌++◌, Option, none, some, ltb, leb,
  ◌==◌, if◌then◌else◌, min, length, drop, replicate, Bytes, add64, le, ℤ, signed32,
}

abbrev pub Vm : Type 0
Vm = ℕ → ℕ → Option Bytes

-- The bytes `bs` stored at the front of `buf`.
abbrev pub store : Bytes → Bytes → Bytes
store bs buf = bs ++ drop (length bs) buf

-- The result, and the buffer as the call leaves it. After a short read the bytes that came stay.
unfoldable pub read : Vm → ℕ → Bytes → ℕ → Bool × Bytes
read vm addr buf len =
    if len == 0
    then (false, buf)
    else elim (vm addr len) [ none ↦ (false, buf) | some bs ↦ (length bs == len, store bs buf) ]

-- A read into a local buffer whose contents count only on success.
unfoldable pub fetch : Vm → ℕ → ℕ → Option Bytes
unfolding read
fetch vm addr len =
    let (ok, buf) = read vm addr (replicate len 0) len in if ok then some buf else none

unfoldable pub read_ptr : Vm → ℕ → ℕ
unfolding fetch le
read_ptr vm addr = elim (fetch vm addr 8) [ none ↦ 0 | some bs ↦ le bs ]

-- The value, and what is left in `*ok`.
unfoldable pub read_i32 : Vm → ℕ → ℤ × Bool
unfolding read le
read_i32 vm addr = let (ok, buf) = read vm addr (replicate 4 0) 4 in (signed32 (le buf), ok)

unfoldable pub read_u16 : Vm → ℕ → ℕ × Bool
unfolding read le
read_u16 vm addr = let (ok, buf) = read vm addr (replicate 2 0) 2 in (le buf, ok)

-- Whether the chunk holds a NUL, and `out` with the bytes before it.
unfoldable pub copy_chunk : Bytes → Bytes → Bool × Bytes
copy_chunk out [] = (false, out)
copy_chunk out (c ∷ tmp) =
    let rest = copy_chunk (out ++ c ∷ []) tmp in if c == 0 then (true, out) else rest

-- The loop of `rm_read_string` with `out` read so far; the fuel counts the chunks.
unfoldable pub read_chunks : Vm → ℕ → ℕ → ℕ → Bytes → Bool × Bytes
unfolding fetch copy_chunk
read_chunks vm addr max zero out = (true, out)
read_chunks vm addr max (suc fuel) out =
    let more : Bool × Bytes =
      elim (fetch vm (add64 addr (length out)) (min 64 (max - 1 - length out))) [
        | none ↦ (not (length out == 0), out)
        | some tmp ↦
            let (ended, out') = copy_chunk out tmp in
            elim ended [ true ↦ (true, out') | false ↦ read_chunks vm addr max fuel out' ]
      ] in
    if ltb (length out) (max - 1) then more else (true, out)

-- Each chunk brings a byte or ends the loop, so `max` rounds are enough.
unfoldable pub read_string : Vm → ℕ → ℕ → Bool × Bytes
unfolding read_chunks
read_string vm addr max =
    if max == 0
    then (false, [])
    else if max == 1
    then (true, [])
    else read_chunks vm addr max max []

unfoldable pub validate_ptr : ℕ → Bool
validate_ptr ptr =
    if ptr == 0
    then false
    else if leb ptr 0x1000
    then false
    else if leb 0x0001_0000_0000_0000 ptr
    then false
    else true
