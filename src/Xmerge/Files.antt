-- ===== src/Xmerge/Files.antt =====
-- What the file calls that xmerge makes are relied on for: open, read, write and close of a process
-- with one thread, on files that nobody else changes, as their manual pages describe them.
use kenrel_learning.Common.{
  ℕ, zero, suc, ◌+◌, ◌<◌, ◌≡◌, ◌==◌, ℤ, pos, negsuc, ◌≤ℤ◌, Bool, true, false, List, [], ◌++◌,
  length, take, ◌≤◌, if◌then◌else◌, Option, none, some,
}
use kenrel_learning.Xmerge.{Kernel}

-- The descriptors. A close releases its descriptor whether it fails or not.
pub record Descriptors (k : Kernel) : Type 0 where
  pub is_open : ℕ → k.World → Bool
  pub open_fresh :
      (path : ℕ) (flags : ℤ) (mode : ℕ) (w : k.World) (fd : ℕ)
      → (k.ksys_open path flags mode w).result ≡ pos fd
      → is_open fd w ≡ false
  pub open_adds :
      (path : ℕ) (flags : ℤ) (mode : ℕ) (w : k.World) (fd g : ℕ)
      → (k.ksys_open path flags mode w).result ≡ pos fd
      → is_open g (k.ksys_open path flags mode w).world ≡ (if g == fd then true else is_open g w)
  pub open_fails :
      (path : ℕ) (flags : ℤ) (mode : ℕ) (w : k.World) (e g : ℕ)
      → (k.ksys_open path flags mode w).result ≡ negsuc e
      → is_open g (k.ksys_open path flags mode w).world ≡ is_open g w
  pub read_keeps :
      (fd n g : ℕ) (w : k.World) → is_open g (k.ksys_read (pos fd) n w).world ≡ is_open g w
  pub write_keeps :
      (fd g : ℕ) (buf : List ℕ) (w : k.World)
      → is_open g (k.ksys_write (pos fd) buf w).world ≡ is_open g w
  pub close_frees :
      (fd g : ℕ) (w : k.World)
      → is_open g (k.ksys_close (pos fd) w).world ≡ (if g == fd then false else is_open g w)
  pub copy_keeps :
      (addr value g : ℕ) (w : k.World) → is_open g (k.copy_to_user addr value w).1 ≡ is_open g w

-- The bytes: `bytes` of a file when it is opened for reading, those `left` to read, and those
-- `written` through a descriptor since it was opened. A write that succeeds writes its first bytes, as
-- many as it returns.
pub record Contents {k : Kernel} (d : Descriptors k) : Type 0 where
  pub bytes : ℕ → List ℕ
  pub left : ℕ → k.World → List ℕ
  pub written : ℕ → k.World → List ℕ
  pub open_left :
      (path : ℕ) (mode : ℕ) (w : k.World) (fd : ℕ)
      → (k.ksys_open path (pos 0) mode w).result ≡ pos fd
      → left fd (k.ksys_open path (pos 0) mode w).world ≡ bytes path
  pub open_written :
      (path : ℕ) (flags : ℤ) (mode : ℕ) (w : k.World) (fd : ℕ)
      → (k.ksys_open path flags mode w).result ≡ pos fd
      → written fd (k.ksys_open path flags mode w).world ≡ []
  pub open_keeps :
      (path : ℕ) (flags : ℤ) (mode : ℕ) (w : k.World) (g : ℕ)
      → d.is_open g w ≡ true
      → written g (k.ksys_open path flags mode w).world ≡ written g w
  pub read_some :
      (fd n c : ℕ) (w : k.World)
      → 0 < n
      → (k.ksys_read (pos fd) n w).result ≡ pos (suc c)
      → (left fd w ≡ (k.ksys_read (pos fd) n w).buf ++ left fd (k.ksys_read (pos fd) n w).world)
        × (length (k.ksys_read (pos fd) n w).buf ≡ suc c)
  pub read_end :
      (fd n : ℕ) (w : k.World) → 0 < n → (k.ksys_read (pos fd) n w).result ≡ pos 0 → left fd w ≡ []
  pub read_written :
      (fd n g : ℕ) (w : k.World) → written g (k.ksys_read (pos fd) n w).world ≡ written g w
  pub write_some :
      (fd c : ℕ) (buf : List ℕ) (w : k.World)
      → (k.ksys_write (pos fd) buf w).result ≡ pos c
      → (written fd (k.ksys_write (pos fd) buf w).world ≡ written fd w ++ take c buf)
        × (c ≤ length buf)
  pub write_left :
      (fd g : ℕ) (buf : List ℕ) (w : k.World)
      → (g == fd) ≡ false
      → left g (k.ksys_write (pos fd) buf w).world ≡ left g w
  pub close_written :
      (fd g : ℕ) (w : k.World) → written g (k.ksys_close (pos fd) w).world ≡ written g w
  pub copy_written :
      (addr value g : ℕ) (w : k.World) → written g (k.copy_to_user addr value w).1 ≡ written g w

abbrev pub IsNegative : ℤ → Type 0
IsNegative z = z ≤ℤ negsuc 0

module _ {k : Kernel} {d : Descriptors k} (c : Contents d) where
  abbrev pub bytes_of : Option ℕ → List ℕ
  bytes_of none = []
  bytes_of (some path) = c.bytes path

  -- The contents of the files `i`, …, `i + n - 1` of the array, one after the other.
  unfoldable pub merged : ℕ → ℕ → ℕ → List ℕ
  merged infiles zero i = []
  merged infiles (suc n) i = bytes_of (k.get_user infiles i) ++ merged infiles n (i + 1)
