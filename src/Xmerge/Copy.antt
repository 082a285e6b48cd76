-- ===== src/Xmerge/Copy.antt =====
-- The two loops of xmerge, on files that behave as Files says.
use kenrel_learning.Common.{
  ℤ-cases, Answer, ℕ, zero, suc, ◌+◌, ◌<◌, ◌≡◌, ◌==◌, inl, inr, refl, sym, subst, ap, ◌∙◌, pos,
  negsuc, false, some, List, [], ◌∷◌, ◌++◌, arith, length, length-append, take,
}
use kenrel_learning.Xmerge.{Kernel, Merge, Loop, done, failed, copy_file}
use kenrel_learning.Xmerge.Parts.{Part-none, Wrote, append-Wrote, write-Wrote, length-take}
use kenrel_learning.Xmerge.Files.{Descriptors, Contents, IsNegative}

pub append_assoc : {A : Type 0} (a b c : List A) → (a ++ b) ++ c ≡ a ++ (b ++ c)
append_assoc [] b c = refl
append_assoc (x ∷ a) b c = ap (λ t. x ∷ t) (append_assoc a b c)

pub append-nil : {A : Type 0} (a : List A) → a ++ [] ≡ a
append-nil [] = refl
append-nil (x ∷ a) = ap (λ t. x ∷ t) (append-nil a)

module _ {k : Kernel} {d : Descriptors k} (c : Contents d) where
  -- What the inner loop, entered with `s`, makes of the descriptors `i`, read, and `o`, written.
  abbrev pub Copied : ℕ → ℕ → Merge k → Loop k → Type 0
  Copied i o s (done s') =
      (out : List ℕ) × ((g : ℕ) → d.is_open g s'.world ≡ d.is_open g s.world)
      × (s'.in_file ≡ pos i)
      × (s'.nfiles ≡ s.nfiles)
      × (s'.acculen ≡ s.acculen + length out)
      × (c.written o s'.world ≡ c.written o s.world ++ out)
      × Wrote k o out (c.left i s.world)
  Copied i o s (failed e s') =
      ((g : ℕ) → d.is_open g s'.world ≡ d.is_open g s.world) × (s'.in_file ≡ pos i) × IsNegative e

  -- One round of the loop before the others.
  Copied-trans :
      (i o : ℕ) (s mid : Merge k) (buf part : List ℕ) (l : Loop k)
      → ((g : ℕ) → d.is_open g mid.world ≡ d.is_open g s.world)
      → mid.nfiles ≡ s.nfiles
      → mid.acculen ≡ s.acculen + length part
      → c.written o mid.world ≡ c.written o s.world ++ part
      → Wrote k o part buf
      → c.left i s.world ≡ buf ++ c.left i mid.world
      → Copied i o mid l
      → Copied i o s l
  Copied-trans i o s mid buf part (done s') keeps n acc wrote some_of left
        (out, k', f, n', acc', wrote', rest) =
      (
        part ++ out,
        λ g. k' g ∙ keeps g,
        f,
        n' ∙ n,
        omega (arith, acc', acc, length-append part out),
        wrote' ∙ (ap (λ x. x ++ out) wrote ∙ append_assoc (c.written o s.world) part out),
        subst (Wrote k o (part ++ out)) (sym left)
            (append-Wrote k o part buf out (c.left i mid.world) some_of rest),
      )
  Copied-trans i o s mid buf part (failed e s') keeps n acc wrote some_of left (k', f, neg) =
      (λ g. k' g ∙ keeps g, f, neg)

  -- The variables while the file `i` is read.
  abbrev pub reading : ℕ → ℕ → ℕ → k.World → Merge k
  reading i n acc w = record { in_file = pos i; nfiles = n; acculen = acc; world = w }

  module _ (fuel i o n acc : ℕ) (w : k.World) where
    copy_file-read_fails :
        (e : ℕ)
        → (k.ksys_read (pos i) 1024 w).result ≡ negsuc e
        → copy_file k (suc fuel) (pos o) (reading i n acc w)
          ≡ some (failed (negsuc e) (reading i n acc (k.ksys_read (pos i) 1024 w).world))
    unfolding copy_file
    copy_file-read_fails e h = rw (h, copy_file) refl

    copy_file-end :
        (k.ksys_read (pos i) 1024 w).result ≡ pos 0
        → copy_file k (suc fuel) (pos o) (reading i n acc w)
          ≡ some (done (reading i n acc (k.ksys_read (pos i) 1024 w).world))
    unfolding copy_file
    copy_file-end h = rw (h, copy_file) refl

    abbrev answer : Answer k.World
    answer =
        k.ksys_write (pos o) (k.ksys_read (pos i) 1024 w).buf (k.ksys_read (pos i) 1024 w).world

    copy_file-write_fails :
        (m e : ℕ)
        → (k.ksys_read (pos i) 1024 w).result ≡ pos (suc m)
        → answer.result ≡ negsuc e
        → copy_file k (suc fuel) (pos o) (reading i n acc w)
          ≡ some (failed (negsuc e) (reading i n acc answer.world))
    unfolding copy_file
    copy_file-write_fails m e h g = rw (h, g, copy_file) refl

    copy_file-again :
        (m a : ℕ)
        → (k.ksys_read (pos i) 1024 w).result ≡ pos (suc m)
        → answer.result ≡ pos a
        → copy_file k (suc fuel) (pos o) (reading i n acc w)
          ≡ copy_file k fuel (pos o) (reading i n (acc + a) answer.world)
    unfolding copy_file
    copy_file-again m a h g = rw (h, g, copy_file) refl

  pub copy_file_lem :
      (fuel i o n acc : ℕ) (w : k.World)
      → (i == o) ≡ false
      → length (c.left i w) < fuel
      → (l : Loop k) × (copy_file k fuel (pos o) (reading i n acc w) ≡ some l)
        × Copied i o (reading i n acc w) l
  copy_file_lem zero i o n acc w apart enough = absurd (omega arith)
  copy_file_lem (suc fuel) i o n acc w apart enough =
      let r = k.ksys_read (pos i) 1024 w in
      let a = k.ksys_write (pos o) r.buf r.world in
      let stays = λ (g : ℕ). d.read_keeps i 1024 g w in
      let stays' = λ (g : ℕ). d.write_keeps o g r.buf r.world ∙ stays g in
      elim (ℤ-cases r.result) [
        | inr (e, h) ↦ (_, copy_file-read_fails fuel i o n acc w e h, (stays, refl, omega arith))
        | inl (zero, h) ↦
            let nil = c.read_end i 1024 w (omega arith) h in
            let same = c.read_written i 1024 o w ∙ sym (append-nil (c.written o w)) in
            (
              _,
              copy_file-end fuel i o n acc w h,
              ([], stays, refl, refl, omega arith, same, (Part-none (c.left i w), inl (sym nil))),
            )
        | inl (suc m, h) ↦ elim (ℤ-cases a.result) [
          | inr (e, g) ↦
              (_, copy_file-write_fails fuel i o n acc w m e h g, (stays', refl, omega arith))
          | inl (b, g) ↦
              let (left, size) = c.read_some i 1024 m w (omega arith) h in
              let (wrote, at_most) = c.write_some o b r.buf r.world g in
              let left' : c.left i w ≡ r.buf ++ c.left i a.world =
                left ∙ ap (λ x. r.buf ++ x) (sym (c.write_left o i r.buf r.world apart)) in
              let less : length (c.left i a.world) < fuel =
                omega (arith, ap length left', length-append r.buf (c.left i a.world), size) in
              let (l, run, post) = copy_file_lem fuel i o n (acc + b) a.world apart less in
              (
                l,
                copy_file-again fuel i o n acc w m b h g ∙ run,
                Copied-trans i o (reading i n acc w) (reading i n (acc + b) a.world) r.buf
                    (take b r.buf) l stays' refl
                    (ap (λ x. acc + x) (sym (length-take b r.buf at_most)))
                    (wrote ∙ ap (λ x. x ++ take b r.buf) (c.read_written i 1024 o w))
                    (write-Wrote k o b r.buf r.world g at_most) left' post,
              )
        ]
      ]
