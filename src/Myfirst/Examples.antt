-- ===== src/Myfirst/Examples.antt =====
-- The registration at a kernel that keeps the list of what is registered.
use kenrel_learning.Common.{Answer, ℕ, ◌≡◌, ◌⊎◌, refl, pos, negsuc, ◌≤ℤ◌, List, [], ◌∷◌, arith}
use kenrel_learning.Myfirst.{Registry, IsUndone, myfirst_init, myfirst_exit, myfirst_init-exit}

abbrev put : ℕ → List ℕ → Answer (List ℕ)
put x w = record { result = pos 0; world = x ∷ w }

abbrev drop_first : List ℕ → List ℕ
drop_first [] = []
drop_first (x ∷ xs) = xs

abbrev stack : Registry
stack = record {
  World = List ℕ;
  alloc_chrdev_region = put 1;
  unregister_chrdev_region = drop_first;
  class_create = put 2;
  class_destroy = drop_first;
  device_create = put 3;
  device_destroy = drop_first;
  cdev_add = λ w. record { result = negsuc 11; world = w };
  cdev_del = drop_first;
}

put-IsUndone : (x : ℕ) → IsUndone (put x) drop_first
put-IsUndone x = record { fails = λ w e h. ground arith; undone = λ w n h. refl }

no_cdev : IsUndone stack.cdev_add stack.cdev_del
no_cdev = record { fails = λ w e h. refl; undone = λ w n h. ground arith }

-- cdev_add fails for want of memory.
unwinds_example :
    (((myfirst_init stack []).result ≤ℤ negsuc 0) × ((myfirst_init stack []).world ≡ []))
    ⊎ (((myfirst_init stack []).result ≡ pos 0)
        × (myfirst_exit stack (myfirst_init stack []).world ≡ []))
unwinds_example =
    myfirst_init-exit stack (put-IsUndone 1) (put-IsUndone 2) (put-IsUndone 3) no_cdev []
