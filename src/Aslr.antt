-- ===== src/Aslr.antt =====
-- source/daemon/aslr_slide.c: the base address and the slide of the main executable. `task_info`
-- is the kernel's answer for TASK_DYLD_INFO, the address of `dyld_all_image_infos`, or `none`.
pub mod Search
pub mod Text
pub mod Sound
mod Tests
use perfect_build_radar_touc.Base.{
  ℕ, zero, suc, ◌+◌, ◌*◌, ◌%◌, ◌^◌, Bool, true, false, not, ◌&&◌, Option, none, some, [], ◌∷◌, ltb,
  ◌==◌, if◌then◌else◌, Bytes, add64, sub64, le,
}
use perfect_build_radar_touc.MachO.{Header, Command, Segment, Loader, same_prefix}
use perfect_build_radar_touc.Remote.{Vm, fetch, read_ptr, validate_ptr}

pub record AslrResult : Type 0 where
  pub found : Bool
  pub base : ℕ
  pub slide : ℕ

abbrev pub failed : AslrResult
failed = record { found = false; base = 0; slide = 0 }

abbrev pub text_name : Bytes
text_name = b'_' ∷ b'_' ∷ b'T' ∷ b'E' ∷ b'X' ∷ b'T' ∷ []

module _ (vm : Vm) (l : Loader) where
  -- The header at `addr`, if it can be read.
  unfoldable pub read_header : ℕ → Option Header
  read_header addr = elim (fetch vm addr l.header_size) [
    | none ↦ none
    | some bs ↦ some (l.header bs)
  ]

  abbrev pub is_executable : Header → Bool
  is_executable mh = mh.magic == l.mh_magic_64 && mh.filetype == l.mh_execute

  -- `imageLoadAddress` of the entry `i`.
  abbrev pub entry_load_addr : ℕ → ℕ → ℕ
  entry_load_addr info_array_ptr i = read_ptr vm (add64 info_array_ptr (i * 24))

  -- The entries `i .. i + n`: the first executable; 0 if there is none.
  unfoldable pub find_executable : ℕ → ℕ → ℕ → ℕ
  find_executable info_array_ptr i zero = 0
  find_executable info_array_ptr i (suc n) =
      let load_addr = entry_load_addr info_array_ptr i in
      let rest = find_executable info_array_ptr (i + 1) n in
      if not (validate_ptr load_addr) then rest else elim (read_header load_addr) [
        | none ↦ rest
        | some mh ↦ if is_executable mh then load_addr else rest
      ]

  -- `vmaddr` of __TEXT among `n` load commands from `cmd_offset` on; `none` where the code fails.
  unfoldable pub find_text : ℕ → ℕ → Option ℕ
  find_text zero cmd_offset = none
  find_text (suc n) cmd_offset = elim (fetch vm cmd_offset l.command_size) [
    | none ↦ none
    | some bs ↦
        let lc = l.command bs in
        let rest = find_text n (add64 cmd_offset lc.cmdsize) in
        if ltb lc.cmdsize l.command_size
        then none
        else if lc.cmd == l.lc_segment_64
        then (if ltb lc.cmdsize l.segment_size
            then none
            else elim (fetch vm cmd_offset l.segment_size) [
              | none ↦ none
              | some raw ↦
                  let seg = l.segment raw in
                  if same_prefix 6 seg.segname text_name then some seg.vmaddr else rest
            ])
        else rest
  ]

  -- From the base address on: the header is checked and __TEXT is looked up.
  unfoldable pub slide_of : ℕ → AslrResult
  slide_of base_addr = elim (read_header base_addr) [
    | none ↦ failed
    | some mh ↦
        let text = find_text mh.ncmds (add64 base_addr l.header_size) in
        if not (mh.magic == l.mh_magic_64) then failed else elim text [
          | none ↦ failed
          | some text_vmaddr ↦ record {
            found = true;
            base = base_addr;
            slide = sub64 base_addr text_vmaddr;
          }
        ]
  ]

  -- The executable found in the image list, or else the first entry.
  unfoldable pub pick_base : ℕ → ℕ → ℕ
  pick_base info_array_ptr info_array_count =
      let limit = if ltb 4096 info_array_count then 4096 else info_array_count in
      let base_addr = find_executable info_array_ptr 0 limit in
      if base_addr == 0 then read_ptr vm info_array_ptr else base_addr

  unfoldable pub aslr_get_slide : Bool → Option ℕ → AslrResult
  aslr_get_slide port_valid none = failed
  aslr_get_slide port_valid (some all_image_info_addr) =
      let info_array_ptr = read_ptr vm (add64 all_image_info_addr 8) in
      let rest : AslrResult = elim (fetch vm (add64 all_image_info_addr 4) 4) [
        | none ↦ failed
        | some bs ↦
            let base_addr = pick_base info_array_ptr (le bs) in
            if le bs == 0
            then failed
            else if info_array_ptr == 0
            then failed
            else if base_addr == 0
            then failed
            else slide_of base_addr
      ] in
      if not port_valid then failed else if all_image_info_addr == 0 then failed else rest
