-- ===== src/Xmerge/Examples.antt =====
-- A kernel with the descriptors 3 and 4, which reads byte by byte, and the theorems on xmerge there.
use kenrel_learning.Common.{
  Answer, ℕ, suc, ◌+◌, ◌≡◌, ◌==◌, refl, ℤ, pos, negsuc, Bool, true, false, some, List, [], ◌∷◌,
  ◌++◌, arith, length, if◌then◌else◌,
}
use kenrel_learning.Xmerge.{
  Kernel, Params, Chunk, xmerge, merge_into, merge_files, merge_file, copy_file, close_file,
  finish_loop, finish, close_positive,
}
use kenrel_learning.Xmerge.Files.{Descriptors, Contents}
use kenrel_learning.Common.{take, ◌≤◌, ap}

record Disk : Type 0 where
  fds : ℕ → Bool
  left : ℕ → List ℕ
  written : ℕ → List ℕ

abbrev set : {A : Type 0} → (ℕ → A) → ℕ → A → ℕ → A
set f i a j = if j == i then a else f j

-- The files 100 and 101.
abbrev bytes : ℕ → List ℕ
bytes path = if path == 100 then 7 ∷ 8 ∷ [] else if path == 101 then 9 ∷ [] else []

abbrev opened : ℕ → ℕ → Disk → Answer Disk
opened path fd w = record {
  result = pos fd;
  world = record {
    fds = set w.fds fd true;
    left = set w.left fd (bytes path);
    written = set w.written fd [];
  };
}

abbrev disk_open : ℕ → ℤ → ℕ → Disk → Answer Disk
disk_open path flags mode w =
    if w.fds 3
    then (if w.fds 4 then record { result = negsuc 23; world = w } else opened path 4 w)
    else opened path 3 w

abbrev read_from : ℕ → List ℕ → Disk → Chunk Disk
read_from fd [] w = record { result = pos 0; buf = []; world = w }
read_from fd (x ∷ xs) w = record {
  result = pos 1;
  buf = x ∷ [];
  world = record w { left = set w.left fd xs };
}

abbrev disk_read : ℤ → ℕ → Disk → Chunk Disk
disk_read (pos fd) n w = read_from fd (w.left fd) w
disk_read (negsuc e) n w = record { result = negsuc 8; buf = []; world = w }

abbrev disk_write : ℤ → List ℕ → Disk → Answer Disk
disk_write (pos fd) buf w = record {
  result = pos (length buf);
  world = record w { written = set w.written fd (w.written fd ++ buf) };
}
disk_write (negsuc e) buf w = record { result = negsuc 8; world = w }

abbrev disk_close : ℤ → Disk → Answer Disk
disk_close (pos fd) w = record {
  result = if w.fds fd then pos 0 else negsuc 8;
  world = record w { fds = set w.fds fd false };
}
disk_close (negsuc e) w = record { result = negsuc 8; world = w }

abbrev params : Params
params = record {
  outfile = 50;
  infiles = 0;
  num_files = 2;
  oflags = pos 65;
  mode = 420;
  ofile_count = 8;
}

abbrev toy : Kernel
toy = record {
  World = Disk;
  copy_from_user = λ args n. some params;
  get_user = λ base i. some (100 + i);
  copy_to_user = λ addr value w. (false, w);
  ksys_open = disk_open;
  ksys_read = disk_read;
  ksys_write = disk_write;
  ksys_close = disk_close;
}

disk_open-fresh :
    (path : ℕ) (flags : ℤ) (mode : ℕ) (w : Disk) (fd : ℕ)
    → (disk_open path flags mode w).result ≡ pos fd
    → w.fds fd ≡ false
disk_open-fresh path flags mode w fd h = ground arith

disk_open-adds :
    (path : ℕ) (flags : ℤ) (mode : ℕ) (w : Disk) (fd g : ℕ)
    → (disk_open path flags mode w).result ≡ pos fd
    → (disk_open path flags mode w).world.fds g ≡ (if g == fd then true else w.fds g)
disk_open-adds path flags mode w fd g h = ground arith

disk_open-fails :
    (path : ℕ) (flags : ℤ) (mode : ℕ) (w : Disk) (e g : ℕ)
    → (disk_open path flags mode w).result ≡ negsuc e
    → (disk_open path flags mode w).world.fds g ≡ w.fds g
disk_open-fails path flags mode w e g h = ground arith

read_from-fds : (fd g : ℕ) (xs : List ℕ) (w : Disk) → (read_from fd xs w).world.fds g ≡ w.fds g
read_from-fds fd g [] w = refl
read_from-fds fd g (x ∷ xs) w = refl

abbrev toy_fds : Descriptors toy
toy_fds = record {
  is_open = λ fd w. w.fds fd;
  open_fresh = disk_open-fresh;
  open_adds = disk_open-adds;
  open_fails = disk_open-fails;
  read_keeps = λ fd n g w. read_from-fds fd g (w.left fd) w;
  write_keeps = λ fd g buf w. refl;
  close_frees = λ fd g w. refl;
  copy_keeps = λ addr value g w. refl;
}

disk_open-left :
    (path mode : ℕ) (w : Disk) (fd : ℕ)
    → (disk_open path (pos 0) mode w).result ≡ pos fd
    → (disk_open path (pos 0) mode w).world.left fd ≡ bytes path
disk_open-left path mode w fd h = ground arith

disk_open-written :
    (path : ℕ) (flags : ℤ) (mode : ℕ) (w : Disk) (fd : ℕ)
    → (disk_open path flags mode w).result ≡ pos fd
    → (disk_open path flags mode w).world.written fd ≡ []
disk_open-written path flags mode w fd h = ground arith

disk_open-keeps :
    (path : ℕ) (flags : ℤ) (mode : ℕ) (w : Disk) (g : ℕ)
    → w.fds g ≡ true
    → (disk_open path flags mode w).world.written g ≡ w.written g
disk_open-keeps path flags mode w g h = ground arith

read_from-some :
    (fd c : ℕ) (xs : List ℕ) (w : Disk)
    → (read_from fd xs w).result ≡ pos (suc c)
    → (xs ≡ (read_from fd xs w).buf ++ (read_from fd xs w).world.left fd)
      × (length (read_from fd xs w).buf ≡ suc c)
read_from-some fd c [] w h = ground arith
read_from-some fd c (x ∷ xs) w h = (ground arith, ground arith)

read_from-end : (fd : ℕ) (xs : List ℕ) (w : Disk) → (read_from fd xs w).result ≡ pos 0 → xs ≡ []
read_from-end fd [] w h = refl
read_from-end fd (x ∷ xs) w h = ground arith

read_from-written :
    (fd g : ℕ) (xs : List ℕ) (w : Disk) → (read_from fd xs w).world.written g ≡ w.written g
read_from-written fd g [] w = refl
read_from-written fd g (x ∷ xs) w = refl

all_of : (buf : List ℕ) → take (length buf) buf ≡ buf
all_of [] = refl
all_of (x ∷ xs) = ap (λ l. x ∷ l) (all_of xs)

disk_write-some :
    (fd c : ℕ) (buf : List ℕ) (w : Disk)
    → (disk_write (pos fd) buf w).result ≡ pos c
    → ((disk_write (pos fd) buf w).world.written fd ≡ w.written fd ++ take c buf) × (c ≤ length buf)
disk_write-some fd c buf w h =
    let e : c ≡ length buf = ground arith in (rw (e, all_of buf) ground arith, omega (arith, e))

abbrev toy_files : Contents toy_fds
toy_files = record {
  bytes = bytes;
  left = λ fd w. w.left fd;
  written = λ fd w. w.written fd;
  open_left = disk_open-left;
  open_written = disk_open-written;
  open_keeps = disk_open-keeps;
  read_some = λ fd n c w b h. read_from-some fd c (w.left fd) w h;
  read_end = λ fd n w b h. read_from-end fd (w.left fd) w h;
  read_written = λ fd n g w. read_from-written fd g (w.left fd) w;
  write_some = λ fd c buf w h. disk_write-some fd c buf w h;
  write_left = λ fd g buf w h. refl;
  close_written = λ fd g w. refl;
  copy_written = λ addr value g w. refl;
}

abbrev blank : Disk
blank = record { fds = λ fd. fd == 0; left = λ fd. []; written = λ fd. [] }

-- The bytes of both files, and a number of bytes that is not negative.
merged_run :
    (a : Answer Disk) × (xmerge toy 3 0 0 blank ≡ some a)
    × (a.result ≡ pos 3)
    × (a.world.written 3 ≡ 7 ∷ 8 ∷ 9 ∷ [])
unfolding xmerge merge_into merge_files merge_file copy_file close_file finish_loop finish
    close_positive
merged_run = (_, refl, refl, refl)
