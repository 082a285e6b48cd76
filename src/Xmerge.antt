-- ===== src/Xmerge.antt =====
-- The system call xmerge (assignment4-1/xmerge.c) over a kernel whose file calls are arguments. Left
-- out: the messages, the names copied for them, and the address limit around the reads and writes.

pub mod Parts
pub mod Files
pub mod Copy
pub mod Loops
pub mod Result
pub mod Examples
use mathlib.Core.Option.{map as map_option}
use kenrel_learning.Common.{
  Answer, ℕ, zero, suc, ◌+◌, ◌-◌, ◌%◌, ◌^◌, ltb, ℤ, pos, negsuc, Bool, true, false, Option, none,
  some, List, if◌then◌else◌,
}

-- struct xmerge_params, and the argument of the system call: addresses are numbers.
pub record Params : Type 0 where
  pub outfile : ℕ
  pub infiles : ℕ
  pub num_files : ℕ
  pub oflags : ℤ
  pub mode : ℕ
  pub ofile_count : ℕ

-- What a read returns, what it leaves in the buffer, and what it leaves.
pub record Chunk (World : Type 0) : Type 0 where
  pub result : ℤ
  pub buf : List ℕ
  pub world : World

-- `copy_to_user` says whether it failed. The memory of the caller is read by `copy_from_user` (args,
-- argslen) and `get_user` (array, index); `none` is a fault.
pub record Kernel : Type 1 where
  pub World : Type 0
  pub copy_from_user : ℕ → ℕ → Option Params
  pub get_user : ℕ → ℕ → Option ℕ
  pub copy_to_user : ℕ → ℕ → World → Bool × World
  pub ksys_open : ℕ → ℤ → ℕ → World → Answer World
  pub ksys_read : ℤ → ℕ → World → Chunk World
  pub ksys_write : ℤ → List ℕ → World → Answer World
  pub ksys_close : ℤ → World → Answer World

-- -EFAULT.
abbrev pub efault : ℤ
efault = negsuc 13

-- The variables of the loop over the input files.
pub record Merge (k : Kernel) : Type 0 where
  pub in_file : ℤ
  pub nfiles : ℕ
  pub acculen : ℕ
  pub world : k.World

-- Where the loops end: with the variables, or at __error_return with `__ret` set.
pub data Loop (k : Kernel) : Type 0 where
  done : Merge k → Loop k
  failed : ℤ → Merge k → Loop k

-- `acculen` as the signed 64-bit integer that it is.
abbrev pub ssize : ℕ → ℤ
ssize n = let low = n % 2 ^ 64 in if ltb low (2 ^ 63) then pos low else negsuc (2 ^ 64 - 1 - low)

module _ (k : Kernel) where
  -- The inner loop, from a file that is open; each read takes one unit of fuel.
  unfoldable pub copy_file : ℕ → ℤ → Merge k → Option (Loop k)
  copy_file zero out s = none
  copy_file (suc fuel) out s =
      let r = k.ksys_read s.in_file 1024 s.world in
      elim r.result [
        | negsuc e ↦ some (failed (negsuc e) (record s { world = r.world }))
        | pos zero ↦ some (done (record s { world = r.world }))
        | pos (suc n) ↦
            let w = k.ksys_write out r.buf r.world in
            elim w.result [
              | negsuc e ↦ some (failed (negsuc e) (record s { world = w.world }))
              | pos m ↦ copy_file fuel out (record s { acculen = s.acculen + m; world = w.world })
            ]
      ]

  -- The end of the body of the loop: the file is closed.
  unfoldable pub close_file : Loop k → Loop k
  close_file (failed e s) = failed e s
  close_file (done s) =
      let r = k.ksys_close s.in_file s.world in
      elim r.result [
        | negsuc e ↦ failed (negsuc e) (record s { world = r.world })
        | pos n ↦ done (record s { world = r.world })
      ]

  -- The body of the loop.
  unfoldable pub merge_file : ℕ → ℤ → Option ℕ → Merge k → Option (Loop k)
  merge_file fuel out none s = some (failed efault s)
  merge_file fuel out (some path) s =
      let r = k.ksys_open path (pos 0) 0 s.world in
      elim r.result [
        | negsuc e ↦ some (failed (negsuc e) (record s { in_file = negsuc e; world = r.world }))
        | pos fd ↦ map_option close_file (
            copy_file fuel out
              (record s { in_file = pos fd; nfiles = s.nfiles + 1; world = r.world }))
      ]

  -- The loop over the files `i`, …, `i + n - 1`.
  unfoldable pub merge_files : ℕ → ℤ → ℕ → ℕ → ℕ → Merge k → Option (Loop k)
  merge_files fuel out infiles zero i s = some (done s)
  merge_files fuel out infiles (suc n) i s = elim (merge_file fuel out (k.get_user infiles i) s) [
    | none ↦ none
    | some (failed e s') ↦ some (failed e s')
    | some (done s') ↦ merge_files fuel out infiles n (i + 1) s'
  ]

  -- `if (fd > 0)` it is closed, and a failure is what is returned.
  unfoldable pub close_positive : ℤ → Answer k.World → Answer k.World
  close_positive (negsuc e) a = a
  close_positive (pos zero) a = a
  close_positive (pos (suc fd)) a =
      let r = k.ksys_close (pos (suc fd)) a.world in
      elim r.result [
        | negsuc e ↦ record { result = negsuc e; world = r.world }
        | pos n ↦ record { result = a.result; world = r.world }
      ]

  -- From __error_return on.
  unfoldable pub finish : Params → ℤ → ℤ → Merge k → Answer k.World
  finish p out ret s =
      let (faults, w) = k.copy_to_user p.ofile_count s.nfiles s.world in
      close_positive out
        (close_positive s.in_file (record { result = if faults then efault else ret; world = w }))

  unfoldable pub finish_loop : Params → ℤ → Loop k → Answer k.World
  finish_loop p out (failed e s) = finish p out e s
  finish_loop p out (done s) = finish p out (ssize s.acculen) (record s { in_file = pos 0 })

  abbrev pub start : k.World → Merge k
  start w = record { in_file = pos 0; nfiles = 0; acculen = 0; world = w }

  -- From the call of ksys_open for the output file on.
  unfoldable pub merge_into : ℕ → Params → Answer k.World → Option (Answer k.World)
  merge_into fuel p opened = elim opened.result [
    | negsuc e ↦ some (finish p (negsuc e) (negsuc e) (start opened.world))
    | pos fd ↦
        map_option (finish_loop p (pos fd))
          (merge_files fuel (pos fd) p.infiles p.num_files 0 (start opened.world))
  ]

  unfoldable pub xmerge : ℕ → ℕ → ℕ → k.World → Option (Answer k.World)
  xmerge fuel args argslen w = elim (k.copy_from_user args argslen) [
    | none ↦ some (record { result = efault; world = w })
    | some p ↦ merge_into fuel p (k.ksys_open p.outfile p.oflags p.mode w)
  ]
