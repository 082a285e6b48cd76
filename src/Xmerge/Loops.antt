-- ===== src/Xmerge/Loops.antt =====
-- The loop of xmerge over the input files, on files that behave as Files says.
use kenrel_learning.Common.{
  ℤ-cases, ℕ, zero, suc, ◌+◌, ◌<◌, ◌≡◌, ◌==◌, inl, inr, refl, sym, ap, ◌∙◌, subst, ℤ, pos, negsuc,
  Bool, true, false, Option, none, some, List, [], ◌++◌, arith, length, length-append,
  if◌then◌else◌,
}
use kenrel_learning.Xmerge.{
  Kernel, Merge, Loop, done, failed, efault, close_file, merge_file, merge_files,
}
use kenrel_learning.Xmerge.Files.{Descriptors, Contents, IsNegative, bytes_of, merged}
use kenrel_learning.Xmerge.Parts.{nothing, Wrote, append-Wrote}
use kenrel_learning.Xmerge.Copy.{append_assoc, append-nil, reading, Copied, copy_file_lem}

-- Whether a final close of a positive `fd` frees `g`.
abbrev pub closes : ℕ → ℤ → Bool
closes g (negsuc e) = false
closes g (pos zero) = false
closes g (pos (suc n)) = g == suc n

-- The descriptor of an open file has a number of its own.
fresh_apart : (base : ℕ → Bool) (i o : ℕ) → base i ≡ false → base o ≡ true → (i == o) ≡ false
fresh_apart base i o f t = ground arith

freed :
    (base : ℕ → Bool) (i g : ℕ) (b : Bool)
    → base i ≡ false
    → b ≡ (if g == i then true else base g)
    → (if g == i then false else b) ≡ base g
freed base i g b f h = ground arith

closed_once :
    (base : ℕ → Bool) (i g : ℕ) → base i ≡ false → (if g == i then false else base g) ≡ base g
closed_once base i g f = ground arith

closes-fresh :
    (base : ℕ → Bool) (i g : ℕ) → base i ≡ false → base 0 ≡ true → closes g (pos i) ≡ (g == i)
closes-fresh base zero g f t = ground arith
closes-fresh base (suc i) g f t = refl

module _ {k : Kernel} {d : Descriptors k} (c : Contents d) where
  -- With the input file closed, if one is positive, the descriptors of `base` are open.
  abbrev pub Settles : (ℕ → Bool) → Merge k → Type 0
  Settles base s = (g : ℕ) → (if closes g s.in_file then false else d.is_open g s.world) ≡ base g

  -- What a part of the loop that merges the bytes `xs` of `n` files makes of `s`. Writes may have
  -- been cut short.
  abbrev pub Merged : (ℕ → Bool) → ℕ → List ℕ → ℕ → Merge k → Loop k → Type 0
  Merged base o xs n s (done s') =
      (out : List ℕ) × ((g : ℕ) → d.is_open g s'.world ≡ base g)
      × Settles base s'
      × (s'.nfiles ≡ s.nfiles + n)
      × (s'.acculen ≡ s.acculen + length out)
      × (c.written o s'.world ≡ c.written o s.world ++ out)
      × Wrote k o out xs
  Merged base o xs n s (failed e s') = IsNegative e × Settles base s'

  Merged-trans :
      (base : ℕ → Bool) (o m : ℕ) (xs ys : List ℕ) (s mid : Merge k) (l : Loop k)
      → Merged base o xs 1 s (done mid)
      → Merged base o ys m mid l
      → Merged base o (xs ++ ys) (suc m) s l
  Merged-trans base o m xs ys s mid (done s') (out, k', f, n', acc, wrote, part)
        (out', k'', f', n'', acc', wrote', part') =
      (
        out ++ out',
        k'',
        f',
        omega (arith, n', n''),
        omega (arith, acc, acc', length-append out out'),
        wrote' ∙ (ap (λ x. x ++ out') wrote ∙ append_assoc (c.written o s.world) out out'),
        append-Wrote k o out xs out' ys part part',
      )
  Merged-trans base o m xs ys s mid (failed e s') p q = q

  module _ (base : ℕ → Bool) (i o : ℕ) (f : base i ≡ false) (z : base 0 ≡ true) where
    Settles-file :
        (n acc : ℕ) (w : k.World)
        → ((g : ℕ) → (if g == i then false else d.is_open g w) ≡ base g)
        → Settles base (reading c i n acc w)
    Settles-file n acc w h g = rw (closes-fresh base i g f z) (h g)

    closed-Merged :
        (n acc : ℕ) (w : k.World) (xs out : List ℕ) (s : Merge k)
        → ((g : ℕ) → d.is_open g w ≡ (if g == i then true else base g))
        → n ≡ s.nfiles + 1
        → acc ≡ s.acculen + length out
        → c.written o w ≡ c.written o s.world ++ out
        → Wrote k o out xs
        → Merged base o xs 1 s (close_file k (done (reading c i n acc w)))
    unfolding close_file
    closed-Merged n acc w xs out s opens more sum wrote part =
        let r = k.ksys_close (pos i) w in
        let free : (g : ℕ) → d.is_open g r.world ≡ base g =
          λ g. d.close_frees i g w ∙ freed base i g (d.is_open g w) f (opens g) in
        let twice : (g : ℕ) → (if g == i then false else d.is_open g r.world) ≡ base g =
          λ g. rw (free g) (closed_once base i g f) in
        elim (ℤ-cases r.result) [
          | inl (m, h) ↦
              rw (h, close_file)
                (
                  out,
                  free,
                  Settles-file n acc r.world twice,
                  more,
                  sum,
                  c.close_written i o w ∙ wrote,
                  part,
                )
          | inr (e, h) ↦ rw (h, close_file) (omega arith, Settles-file n acc r.world twice)
        ]

    -- From the end of the inner loop to the end of the round.
    close_file-Merged :
        (s : Merge k) (xs : List ℕ) (w : k.World) (l : Loop k)
        → ((g : ℕ) → d.is_open g w ≡ (if g == i then true else base g))
        → c.left i w ≡ xs
        → c.written o w ≡ c.written o s.world
        → Copied c i o (reading c i (s.nfiles + 1) s.acculen w) l
        → Merged base o xs 1 s (close_file k l)
    unfolding close_file
    close_file-Merged s xs w (done s') opens left wrote (out, keeps, file, n, acc, all, part) =
        subst (λ fd. Merged base o xs 1 s (close_file k (done (record s' { in_file = fd }))))
          (sym file)
          (closed-Merged s'.nfiles s'.acculen s'.world xs out s (λ g. keeps g ∙ opens g) n acc
            (all ∙ ap (λ x. x ++ out) wrote) (subst (Wrote k o out) left part))
    close_file-Merged s xs w (failed e s') opens left wrote (keeps, file, neg) = (
      neg,
      subst (λ fd. Settles base (record s' { in_file = fd })) (sym file)
          (Settles-file s'.nfiles s'.acculen s'.world
            (λ g. freed base i g (d.is_open g s'.world) f (keeps g ∙ opens g))),
    )

  module _ (fuel o : ℕ) (base : ℕ → Bool) (z : base 0 ≡ true) (t : base o ≡ true)
      (enough : (path : ℕ) → length (c.bytes path) < fuel) where
    merge_file_lem :
        (name : Option ℕ) (s : Merge k)
        → ((g : ℕ) → d.is_open g s.world ≡ base g)
        → Settles base s
        → (l : Loop k) × (merge_file k fuel (pos o) name s ≡ some l)
          × Merged base o (bytes_of c name) 1 s l
    unfolding merge_file
    merge_file_lem none s opens settles = (failed efault s, refl, (omega arith, settles))
    merge_file_lem (some path) s opens settles =
        let r = k.ksys_open path (pos 0) 0 s.world in
        elim (ℤ-cases r.result) [
          | inr (e, h) ↦ (
            failed (negsuc e) (record s { in_file = negsuc e; world = r.world }),
            rw (h, merge_file) refl,
            (omega arith, λ g. d.open_fails path (pos 0) 0 s.world e g h ∙ opens g),
          )
          | inl (i, h) ↦
              let f : base i ≡ false = sym (opens i) ∙ d.open_fresh path (pos 0) 0 s.world i h in
              let left = c.open_left path 0 s.world i h in
              let more : (g : ℕ) → d.is_open g r.world ≡ (if g == i then true else base g) =
                λ g. rw (sym (opens g)) (d.open_adds path (pos 0) 0 s.world i g h) in
              let wrote = c.open_keeps path (pos 0) 0 s.world o (opens o ∙ t) in
              let (l, run, post) =
                copy_file_lem c fuel i o (s.nfiles + 1) s.acculen r.world (fresh_apart base i o f t)
                  (rw left (enough path)) in
              (
                close_file k l,
                rw (h, merge_file, run) refl,
                close_file-Merged base i o f z s (c.bytes path) r.world l more left wrote post,
              )
        ]

    -- The first round before the others.
    first :
        (infiles n i : ℕ) (s : Merge k) (l : Loop k)
        → merge_file k fuel (pos o) (k.get_user infiles i) s ≡ some l
        → Merged base o (bytes_of c (k.get_user infiles i)) 1 s l
        → ((s' : Merge k)
            → ((g : ℕ) → d.is_open g s'.world ≡ base g)
            → Settles base s'
            → (l' : Loop k) × (merge_files k fuel (pos o) infiles n (i + 1) s' ≡ some l')
              × Merged base o (merged c infiles n (i + 1)) n s' l')
        → (l' : Loop k) × (merge_files k fuel (pos o) infiles (suc n) i s ≡ some l')
          × Merged base o (merged c infiles (suc n) i) (suc n) s l'
    unfolding merge_files merged
    first infiles n i s (failed e s') run post rest =
        (failed e s', rw (merge_files, run) refl, post)
    first infiles n i s (done s') run here rest =
        let (l, run', post) = rest s' here.1 here.2 in
        let xs = bytes_of c (k.get_user infiles i) in
        (
          l,
          rw (merge_files, run) run',
          Merged-trans base o n xs (merged c infiles n (i + 1)) s s' l here post,
        )

    pub merge_files_lem :
        (infiles n i : ℕ) (s : Merge k)
        → ((g : ℕ) → d.is_open g s.world ≡ base g)
        → Settles base s
        → (l : Loop k) × (merge_files k fuel (pos o) infiles n i s ≡ some l)
          × Merged base o (merged c infiles n i) n s l
    unfolding merge_files merged
    merge_files_lem infiles zero i s opens settles = (
      done s,
      refl,
      (
        [],
        opens,
        settles,
        omega arith,
        omega arith,
        sym (append-nil (c.written o s.world)),
        (nothing, inl refl),
      ),
    )
    merge_files_lem infiles (suc n) i s opens settles =
        let (l, run, post) = merge_file_lem (k.get_user infiles i) s opens settles in
        first infiles n i s l run post (λ s' h g. merge_files_lem infiles n (i + 1) s' h g)
