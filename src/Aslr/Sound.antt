-- ===== src/Aslr/Sound.antt =====
-- The result of `aslr_get_slide` against the image in memory.
use perfect_build_radar_touc.Base.{
  ℕ, ◌*◌, ◌<◌, ◌≡◌, ◌⊎◌, inl, inr, refl, sym, subst, Bool, true, false, ◌||◌, Option, none, some,
  arith, ltb, ◌==◌, if◌then◌else◌, Bool-cases, Option-cases, Bytes, add64, sub64, u64_mod, le,
}
use perfect_build_radar_touc.MachO.{Header, Loader}
use perfect_build_radar_touc.Remote.{Vm, fetch, read_ptr}
use perfect_build_radar_touc.Remote.Values.{GivesBytes, read_ptr-lt}
use perfect_build_radar_touc.Aslr.{
  AslrResult, failed, read_header, find_executable, find_text, slide_of, pick_base, aslr_get_slide,
}
use perfect_build_radar_touc.Aslr.Search.{find_executable-IsFirst}
use perfect_build_radar_touc.Aslr.Text.{TextAt, TextAt-lt, find_text_iff}

module _ (vm : Vm) (l : Loader) where
  -- What a result that says `found` stands for.
  pub record IsImage (r : AslrResult) : Type 0 where
    pub mh : Header
    pub header_read : read_header vm l r.base ≡ some mh
    pub magic_ok : mh.magic ≡ l.mh_magic_64
    pub text_vmaddr : ℕ
    pub text : TextAt vm l text_vmaddr mh.ncmds (add64 r.base l.header_size)
    pub adds_up : add64 r.slide text_vmaddr ≡ r.base

  slide_of-IsImage :
      (base_addr : ℕ)
      → base_addr < u64_mod
      → ((raw : Bytes) → (l.segment raw).vmaddr < u64_mod)
      → (slide_of vm l base_addr ≡ failed) ⊎ IsImage (slide_of vm l base_addr)
  unfolding slide_of
  slide_of-IsImage b small words = elim (Option-cases (read_header vm l b)) [
    | inl e ↦ inl (ground arith)
    | inr (mh, e) ↦ elim (Bool-cases (mh.magic == l.mh_magic_64)) [
      | inr bad ↦ inl (ground arith)
      | inl good ↦ elim (Option-cases (find_text vm l mh.ncmds (add64 b l.header_size))) [
        | inl t ↦ inl (ground arith)
        | inr (v, t) ↦
            let text = (find_text_iff vm l v mh.ncmds (add64 b l.header_size)).0 t in
            let v_small = TextAt-lt vm l words text in
            let r : slide_of vm l b ≡ record { found = true; base = b; slide = sub64 b v } =
              ground arith in
            inr (
              subst IsImage (sym r) (record {
                mh = mh;
                header_read = e;
                magic_ok = ground arith;
                text_vmaddr = v;
                text = text;
                adds_up = omega arith;
              }))
      ]
    ]
  ]

  pick_base-lt : (array count : ℕ) → GivesBytes vm → pick_base vm l array count < u64_mod
  unfolding pick_base
  pick_base-lt array count g =
      let limit = if ltb 4096 count then 4096 else count in
      let least = find_executable vm l array 0 limit in
      let least_small : least < u64_mod = elim (find_executable-IsFirst vm l array 0 limit) [
        | inl (z, _) ↦ omega arith
        | inr (j, _, _, e, _, _) ↦ rw e (read_ptr-lt vm (add64 array (j * 24)) g)
      ] in
      ground (arith, read_ptr-lt vm array g)

  -- The result of `aslr_get_slide` is the failure record, or the base of an image whose header
  -- carries the magic number, with the slide that takes the preferred address of its first __TEXT
  -- segment to that base; the kernel hands out bytes and `vmaddr` is a 64-bit field.
  pub aslr_get_slide-IsImage :
      (port_valid : Bool) (info : Option ℕ)
      → GivesBytes vm
      → ((raw : Bytes) → (l.segment raw).vmaddr < u64_mod)
      → (aslr_get_slide vm l port_valid info ≡ failed)
        ⊎ IsImage (aslr_get_slide vm l port_valid info)
  unfolding aslr_get_slide
  aslr_get_slide-IsImage port_valid none g words = inl refl
  aslr_get_slide-IsImage false (some addr) g words = inl refl
  aslr_get_slide-IsImage true (some addr) g words =
      let array = read_ptr vm (add64 addr 8) in
      elim (Option-cases (fetch vm (add64 addr 4) 4)) [
        | inl e ↦ inl (ground arith)
        | inr (bs, e) ↦
            let base_addr = pick_base vm l array (le bs) in
            elim (Bool-cases (addr == 0 || le bs == 0 || array == 0 || base_addr == 0)) [
              | inl bad ↦ inl (ground arith)
              | inr good ↦
                  let r : aslr_get_slide vm l true (some addr) ≡ slide_of vm l base_addr =
                    ground arith in
                  rw r (slide_of-IsImage base_addr (pick_base-lt array (le bs) g) words)
            ]
      ]
