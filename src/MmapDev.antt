-- ===== src/MmapDev.antt =====
-- The memory-mapped page of 11-mmap/mmap_drv.c and the program that maps it, 11-mmap/mmap_app.c.
-- The page is a list of bytes; what remap_pfn_range, open and mmap answer are arguments. Its loading
-- and unloading are in Lifecycle/Misc.antt.
pub mod Session
use linux_dev_note.Common.{
  ℕ, zero, suc, ◌-◌, ◌/◌, ◌%◌, ◌^◌, Bool, true, false, List, [], ◌∷◌, ◌++◌, Option, none, some,
  if◌then◌else◌, get_or, set,
}
use linux_dev_note.Common.Int.{ℤ, pos, negsuc}
use linux_dev_note.Lifecycle.{is_zero}

-- What one call of remap_pfn_range asks for.
pub record Mapping : Type 0 where
  pub start : ℕ
  pub pfn : ℕ
  pub size : ℕ

-- `my_map` for the buffer at the physical address `page`: the result, and the mapping made.
unfoldable pub my_map : (Mapping → ℤ) → ℕ → ℕ → ℕ → ℤ × Option Mapping
my_map remap_pfn_range page vm_start vm_end =
    let asked : Mapping = record {
      start = vm_start;
      pfn = page / 2 ^ 12;
      size = vm_end - vm_start;
    } in
    if is_zero (remap_pfn_range asked) then (pos 0, some asked) else (negsuc 0, none)

-- the loop of `dev_init` from `i` on, with `n` rounds left
unfoldable pub fill : ℕ → ℕ → List ℕ → List ℕ
fill i zero buffer = buffer
fill i (suc n) buffer = fill (suc i) n (set buffer i (i % 2 ^ 8))

-- the buffer after `dev_init`
unfoldable pub loaded : List ℕ → List ℕ
unfolding fill
loaded buffer = fill 0 10 buffer

-- the first loop of `main`: what it prints, and the page after it
unfoldable pub visit : ℕ → ℕ → List ℕ → List ℕ × List ℕ
visit i zero p_map = ([], p_map)
visit i (suc n) p_map =
    let rest = visit (suc i) n (set p_map i 66) in (get_or p_map i 0 ∷ rest.0, rest.1)

-- the second loop of `main`
unfoldable pub print_all : ℕ → ℕ → List ℕ → List ℕ
print_all i zero p_map = []
print_all i (suc n) p_map = get_or p_map i 0 ∷ print_all (suc i) n p_map

-- What a run of the program comes to: its exit status, the numbers printed, and the page.
pub record Run : Type 0 where
  pub status : ℕ
  pub printed : List ℕ
  pub page : List ℕ

-- `main`, where `opened` says that open gave a descriptor, and `mapped` that mmap gave the page.
unfoldable pub main : Bool → Bool → List ℕ → Run
unfolding visit print_all
main opened mapped p_map =
    if opened
    then if mapped
      then record {
        status = 0;
        printed = (visit 0 10 p_map).0 ++ print_all 0 10 (visit 0 10 p_map).1;
        page = (visit 0 10 p_map).1;
      }
      else record { status = 0; printed = []; page = p_map }
    else record { status = 1; printed = []; page = p_map }
