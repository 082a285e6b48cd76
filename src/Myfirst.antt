-- ===== src/Myfirst.antt =====
-- The character device of myfirst.c: registration of the module, and the read and write of its one
-- byte. The calls that register with the kernel are an argument; open and release keep no state.
mod Examples
use kenrel_learning.Common.{
  ℤ-cases, Answer, ℕ, suc, ◌+◌, ◌≡◌, ◌≤◌, ◌⊎◌, ◌==◌, inl, inr, refl, sym, ap, ◌∙◌, ℤ, pos, negsuc,
  ◌≤ℤ◌, Bool, true, false, Option, none, some, if◌then◌else◌, arith,
}

-- The calls of myfirst_init with their counterparts; an error pointer is its negative number.
pub record Registry : Type 1 where
  pub World : Type 0
  pub alloc_chrdev_region : World → Answer World
  pub unregister_chrdev_region : World → World
  pub class_create : World → Answer World
  pub class_destroy : World → World
  pub device_create : World → Answer World
  pub device_destroy : World → World
  pub cdev_add : World → Answer World
  pub cdev_del : World → World

-- A call that fails changes nothing, and one that succeeds is undone by its counterpart.
pub record IsUndone {W : Type 0} (call : W → Answer W) (undo : W → W) : Type 0 where
  pub fails : (w : W) (e : ℕ) → (call w).result ≡ negsuc e → (call w).world ≡ w
  pub undone : (w : W) (n : ℕ) → (call w).result ≡ pos n → undo (call w).world ≡ w

module _ (r : Registry) where
  unfoldable pub myfirst_init : r.World → Answer r.World
  myfirst_init w =
      let a = r.alloc_chrdev_region w in
      elim a.result [
        | negsuc e ↦ record { result = negsuc e; world = a.world }
        | pos _ ↦
            let b = r.class_create a.world in
            elim b.result [
              | negsuc e ↦ record { result = negsuc e; world = r.unregister_chrdev_region b.world }
              | pos _ ↦
                  let c = r.device_create b.world in
                  elim c.result [
                    | negsuc e ↦ record {
                      result = negsuc e;
                      world = r.unregister_chrdev_region (r.class_destroy c.world);
                    }
                    | pos _ ↦
                        let d = r.cdev_add c.world in
                        elim d.result [
                          | negsuc e ↦ record {
                            result = negsuc e;
                            world =
                                r.unregister_chrdev_region
                                  (r.class_destroy (r.device_destroy d.world));
                          }
                          | pos _ ↦ record { result = pos 0; world = d.world }
                        ]
                  ]
            ]
      ]

  unfoldable pub myfirst_exit : r.World → r.World
  myfirst_exit w = r.unregister_chrdev_region (r.class_destroy (r.device_destroy (r.cdev_del w)))

-- The result, the file position and the bytes that are copied; `faults` says that copy_to_user fails.
pub record Reading : Type 0 where
  pub result : ℤ
  pub f_pos : ℕ
  pub copied : Option ℕ

unfoldable pub myfirst_read : ℕ → ℕ → Bool → Reading
myfirst_read last f_pos faults =
    if f_pos == 0
    then (if faults
        then record { result = negsuc 13; f_pos = f_pos; copied = none }
        else record { result = pos 1; f_pos = f_pos + 1; copied = some last })
    else record { result = pos 0; f_pos = f_pos; copied = none }

-- `first` is the first byte at the caller's address, `none` if it cannot be read. The byte that is
-- kept is the world of the answer.
unfoldable pub myfirst_write : ℕ → Option ℕ → ℕ → Answer ℕ
myfirst_write last none n = record { result = negsuc 13; world = last }
myfirst_write last (some b) n = record { result = pos n; world = b }

module _ (r : Registry) (region : IsUndone r.alloc_chrdev_region r.unregister_chrdev_region)
    (class : IsUndone r.class_create r.class_destroy)
    (device : IsUndone r.device_create r.device_destroy)
    (cdev : IsUndone r.cdev_add r.cdev_del) where
  -- What is undone after a failure of the third and of the fourth call.
  abbrev undo_class : r.World → r.World
  undo_class w = r.unregister_chrdev_region (r.class_destroy w)

  abbrev undo_device : r.World → r.World
  undo_device w = undo_class (r.device_destroy w)

  -- Either myfirst_init returns a negative number and nothing is registered that was not before,
  -- whichever of its four calls failed, or it returns 0 and myfirst_exit takes back all of it.
  pub myfirst_init-exit :
      (w : r.World)
      → (((myfirst_init r w).result ≤ℤ negsuc 0) × ((myfirst_init r w).world ≡ w))
        ⊎ (((myfirst_init r w).result ≡ pos 0) × (myfirst_exit r (myfirst_init r w).world ≡ w))
  unfolding myfirst_init myfirst_exit
  myfirst_init-exit w =
      let a = r.alloc_chrdev_region w in
      let b = r.class_create a.world in
      let c = r.device_create b.world in
      let d = r.cdev_add c.world in
      elim (ℤ-cases a.result) [
        | inr (e, h) ↦ rw (h, myfirst_init) (inl (omega arith, region.fails w e h))
        | inl (n, h) ↦
            let back = region.undone w n h in
            elim (ℤ-cases b.result) [
              | inr (e, g) ↦
                  let same = ap r.unregister_chrdev_region (class.fails a.world e g) in
                  rw (h, g, myfirst_init) (inl (omega arith, same ∙ back))
              | inl (n', g) ↦
                  let back' = ap r.unregister_chrdev_region (class.undone a.world n' g) ∙ back in
                  elim (ℤ-cases c.result) [
                    | inr (e, f) ↦
                        let same = ap undo_class (device.fails b.world e f) in
                        rw (h, g, f, myfirst_init) (inl (omega arith, same ∙ back'))
                    | inl (n'', f) ↦
                        let back'' = ap undo_class (device.undone b.world n'' f) ∙ back' in
                        elim (ℤ-cases d.result) [
                          | inr (e, k) ↦
                              let same = ap undo_device (cdev.fails c.world e k) in
                              rw (h, g, f, k, myfirst_init) (inl (omega arith, same ∙ back''))
                          | inl (m, k) ↦
                              let same = ap undo_device (cdev.undone c.world m k) in
                              rw (h, g, f, k, myfirst_init) (inr (refl, same ∙ back''))
                        ]
                  ]
            ]
      ]
