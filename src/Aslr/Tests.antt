-- ===== src/Aslr/Tests.antt =====
-- An image in a small memory: the search, the walk, and the theorems at that image.
use perfect_build_radar_touc.Base.{
  ℕ, ◌+◌, ◌-◌, ◌%◌, ◌/◌, ◌≡◌, ◌⊎◌, ◌↔◌, refl, true, [], ◌∷◌, ◌++◌, none, some, arith, if◌then◌else◌,
  Bytes, replicate, take, drop, subst, All-take, All-drop, Bool-cases, inl, inr, leb, ◌&&◌, IsByte,
  All,
}
use perfect_build_radar_touc.MachO.{same_prefix}
use perfect_build_radar_touc.MachO.Sample.{small_loader}
use perfect_build_radar_touc.Remote.{Vm, fetch, read_ptr, validate_ptr}
use perfect_build_radar_touc.Remote.Values.{GivesBytes}
use perfect_build_radar_touc.Aslr.{
  failed, read_header, find_executable, find_text, slide_of, pick_base, aslr_get_slide,
}
use perfect_build_radar_touc.Aslr.Sound.{IsImage, aslr_get_slide-IsImage}
use perfect_build_radar_touc.Aslr.Text.{TextAt, find_text_iff}

-- `n` zeros, and 4 and 8 bytes of a number.
abbrev zeros : ℕ → Bytes
zeros n = replicate n 0

abbrev le4 : ℕ → Bytes
le4 v = (v % 256) ∷ (v / 256 % 256) ∷ (v / 65536 % 256) ∷ (v / 16777216 % 256) ∷ []

-- From 0x2000 on: the image list (count 2 at +4, array at +8), the array at 0x2010 with entries
-- 0 and 0x3000, and at 0x3000 an image with one segment command for __TEXT at 0x1000.
abbrev list_bytes : Bytes
list_bytes =
    zeros 4 ++ (le4 2 ++ (le4 0x2010 ++ (zeros 4 ++ (zeros 24 ++ (le4 0x3000 ++ zeros 20)))))

abbrev image_bytes : Bytes
image_bytes =
    le4 0xfeed_facf
    ++ (zeros 8
        ++ (le4 2
            ++ (le4 1
                ++ (le4 72
                    ++ (zeros 8
                        ++ (le4 0x19
                            ++ (le4 72
                                ++ (b'_' ∷ b'_' ∷ b'T' ∷ b'E' ∷ b'X' ∷ b'T' ∷ zeros 10
                                    ++ (le4 0x1000 ++ zeros 44)))))))))

abbrev image_vm : Vm
image_vm addr n =
    if leb 0x3000 addr && leb (addr + n) 0x3068
    then some (take n (drop (addr - 0x3000) image_bytes))
    else if leb 0x2000 addr && leb (addr + n) 0x2040
    then some (take n (drop (addr - 0x2000) list_bytes))
    else none

aslr_get_slide_runs :
    aslr_get_slide image_vm small_loader true (some 0x2000)
    ≡ record { found = true; base = 0x3000; slide = 0x2000 }
unfolding aslr_get_slide pick_base find_executable read_header slide_of find_text fetch read_ptr
    validate_ptr same_prefix
aslr_get_slide_runs = refl

aslr_get_slide_fails : aslr_get_slide image_vm small_loader true (some 0x4000) ≡ failed
unfolding aslr_get_slide pick_base find_executable read_header slide_of find_text fetch read_ptr
    validate_ptr same_prefix
aslr_get_slide_fails = refl

find_text_iff_example :
    (find_text image_vm small_loader 1 0x3020 ≡ some 0x1000)
    ↔ TextAt image_vm small_loader 0x1000 1 0x3020
find_text_iff_example = find_text_iff image_vm small_loader 0x1000 1 0x3020

bytes_at :
    (bytes : Bytes) (n k : ℕ) (bs : Bytes)
    → All IsByte bytes
    → some (take n (drop k bytes)) ≡ some bs
    → All IsByte bs
bytes_at bytes n k bs h e =
    let same : take n (drop k bytes) ≡ bs = cc in
    subst (All IsByte) same (All-take IsByte n (drop k bytes) (All-drop IsByte k bytes h))

image_vm-GivesBytes : GivesBytes image_vm
image_vm-GivesBytes addr n bs e = elim (Bool-cases (leb 0x3000 addr && leb (addr + n) 0x3068)) [
  | inl i ↦ bytes_at image_bytes n (addr - 0x3000) bs (omega arith) (rw i at e)
  | inr no_image ↦ elim (Bool-cases (leb 0x2000 addr && leb (addr + n) 0x2040)) [
    | inl l ↦ bytes_at list_bytes n (addr - 0x2000) bs (omega arith) (rw l at (rw no_image at e))
    | inr no_list ↦ cc (rw no_list at (rw no_image at e))
  ]
]

aslr_get_slide-IsImage_example :
    (aslr_get_slide image_vm small_loader true (some 0x2000) ≡ failed)
    ⊎ IsImage image_vm small_loader (aslr_get_slide image_vm small_loader true (some 0x2000))
aslr_get_slide-IsImage_example =
    aslr_get_slide-IsImage image_vm small_loader true (some 0x2000) image_vm-GivesBytes
      (λ raw. omega arith)
