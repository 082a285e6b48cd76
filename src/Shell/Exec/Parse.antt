-- ===== src/Shell/Exec/Parse.antt =====
-- The loop of execJob2 over the tokens of a job reads back the pipeline that they spell.
use kenrel_learning.Common.{ℕ, ◌≡◌, refl, ap, subst, ◌∙◌, List, [], ◌∷◌, ◌++◌, Option, some}
use mathlib.Core.List.{append_assoc, append-nil}
use kenrel_learning.Shell.Exec.{
  Mode, Op, op_in, op_both, op_append, op_out, op_word, classify, mode_of, add_word, less_token,
  both_token, append_token, greater_token, bar_token, Segment, empty_segment, last_token, after_bar,
  parse,
}

pub data Redirection : Type 0 where
  from both append_to to : List ℕ → Redirection

abbrev pub op_of : Redirection → Op
op_of (from f) = op_in
op_of (both f) = op_both
op_of (append_to f) = op_append
op_of (to f) = op_out

abbrev pub file_of : Redirection → List ℕ
file_of (from f) = f
file_of (both f) = f
file_of (append_to f) = f
file_of (to f) = f

abbrev pub sign : Redirection → List ℕ
sign (from f) = less_token
sign (both f) = both_token
sign (append_to f) = append_token
sign (to f) = greater_token

pub record Command : Type 0 where
  pub words : List (List ℕ)
  pub redirections : List Redirection

-- As tokens.
pub render_redirections : List Redirection → List (List ℕ)
render_redirections [] = []
render_redirections (r ∷ rs) = sign r ∷ file_of r ∷ render_redirections rs

pub render : Command → List (List ℕ)
unfolding render_redirections
render c = c.words ++ render_redirections c.redirections

pub render_all : Command → List Command → List (List ℕ)
unfolding render
render_all c [] = render c
render_all c (d ∷ ds) = render c ++ (bar_token ∷ render_all d ds)

abbrev pub ArePlain : List (List ℕ) → Type 0
ArePlain [] = Unit
ArePlain (t ∷ ts) = (classify t ≡ op_word) × ArePlain ts

module _ (open_file : Mode → List ℕ → Option ℕ) where
  -- The file of each redirection can be opened, and gets this descriptor.
  abbrev pub Opens : List Redirection → List ℕ → Type 0
  Opens [] [] = Unit
  Opens (r ∷ rs) (d ∷ ds) = (open_file (mode_of (op_of r)) (file_of r) ≡ some d) × Opens rs ds
  Opens _ _ = ⊥

  abbrev pub Good : List Command → List (List ℕ) → Type 0
  Good [] [] = Unit
  Good (c ∷ cs) (d ∷ ds) = ArePlain c.words × Opens c.redirections d × Good cs ds
  Good _ _ = ⊥

-- What a redirection to this descriptor does to the three descriptors of a command.
pub attach : Redirection → ℕ → Segment → Segment
attach (from f) d s = record s { redirect = record (s.redirect) { fd_in = some d } }
attach (both f) d s = record s {
  redirect = record (s.redirect) { fd_out = some d; fd_err = some d };
}
attach (append_to f) d s = record s { redirect = record (s.redirect) { fd_out = some d } }
attach (to f) d s = record s { redirect = record (s.redirect) { fd_out = some d } }

-- The segment that a command stands for: the last redirection of a descriptor holds.
pub redirected : List Redirection → List ℕ → Segment → Segment
unfolding attach
redirected [] ds s = s
redirected (r ∷ rs) [] s = s
redirected (r ∷ rs) (d ∷ ds) s = redirected rs ds (attach r d s)

pub segment_of : Command → List ℕ → Segment
unfolding redirected
segment_of c ds = redirected c.redirections ds (record empty_segment { argv = c.words })

pub segments_of : List Command → List (List ℕ) → List Segment
unfolding segment_of
segments_of [] ds = []
segments_of (c ∷ cs) [] = []
segments_of (c ∷ cs) (d ∷ ds) = segment_of c d ∷ segments_of cs ds

module _ (open_file : Mode → List ℕ → Option ℕ) where
  parse-nil : (s : Segment) → parse open_file [] s ≡ some (s ∷ [])
  unfolding parse
  parse-nil s = refl

  parse-word :
      (t : List ℕ) (r : List (List ℕ)) (s : Segment)
      → classify t ≡ op_word
      → parse open_file (t ∷ r) s ≡ parse open_file r (add_word t s)
  unfolding parse
  parse-word t [] s h = rw (h, last_token) refl
  parse-word t (f ∷ r) s h = rw (h, parse) refl

  parse-bar :
      (r : List (List ℕ)) (s : Segment)
      → parse open_file (bar_token ∷ r) s ≡ after_bar s (parse open_file r empty_segment)
  unfolding parse
  parse-bar [] s = refl
  parse-bar (f ∷ r) s = refl

  parse-redirection :
      (x : Redirection) (r : List (List ℕ)) (s : Segment) (d : ℕ)
      → open_file (mode_of (op_of x)) (file_of x) ≡ some d
      → parse open_file (sign x ∷ file_of x ∷ r) s ≡ parse open_file r (attach x d s)
  unfolding parse attach
  parse-redirection (from f) r s d h = rw h refl
  parse-redirection (both f) r s d h = rw h refl
  parse-redirection (append_to f) r s d h = rw h refl
  parse-redirection (to f) r s d h = rw h refl

  parse-words :
      (ws r : List (List ℕ)) (s : Segment)
      → ArePlain ws
      → parse open_file (ws ++ r) s ≡ parse open_file r (record s { argv = s.argv ++ ws })
  parse-words [] r s p = rw append-nil refl
  parse-words (w ∷ ws) r s p =
      parse-word w (ws ++ r) s p.0 ∙ (parse-words ws r (add_word w s) p.1 ∙ rw append_assoc refl)

  parse-redirections :
      (rs : List Redirection) (ds : List ℕ) (r : List (List ℕ)) (s : Segment)
      → Opens open_file rs ds
      → parse open_file (render_redirections rs ++ r) s ≡ parse open_file r (redirected rs ds s)
  unfolding render_redirections redirected
  parse-redirections [] [] r s o = refl
  parse-redirections [] (d ∷ ds) r s o = absurd o
  parse-redirections (x ∷ rs) [] r s o = absurd o
  parse-redirections (x ∷ rs) (d ∷ ds) r s o =
      parse-redirection x (render_redirections rs ++ r) s d o.0
      ∙ parse-redirections rs ds r (attach x d s) o.1

  parse-command :
      (c : Command) (ds : List ℕ) (r : List (List ℕ))
      → ArePlain c.words
      → Opens open_file c.redirections ds
      → parse open_file (render c ++ r) empty_segment ≡ parse open_file r (segment_of c ds)
  unfolding render segment_of
  parse-command c ds r p o = rw append_assoc (
      parse-words c.words (render_redirections c.redirections ++ r) empty_segment p
      ∙ parse-redirections c.redirections ds r (record empty_segment { argv = c.words }) o)

  -- A pipeline of commands, each of plain words and then redirections of any kind whose files can
  -- be opened, is read back as its commands, in order, with their words and descriptors.
  pub parse-render :
      (c : Command) (cs : List Command) (d : List ℕ) (ds : List (List ℕ))
      → Good open_file (c ∷ cs) (d ∷ ds)
      → parse open_file (render_all c cs) empty_segment ≡ some (segments_of (c ∷ cs) (d ∷ ds))
  unfolding render_all segments_of
  parse-render c [] d [] g =
      subst (λ x. parse open_file x empty_segment ≡ some (segment_of c d ∷ []))
        (append-nil (render c)) (parse-command c d [] g.0 g.1 ∙ parse-nil (segment_of c d))
  parse-render c [] d (e ∷ ds) g = absurd g.2
  parse-render c (x ∷ cs) d [] g = absurd g.2
  parse-render c (x ∷ cs) d (e ∷ ds) g =
      parse-command c d (bar_token ∷ render_all x cs) g.0 g.1
      ∙ (parse-bar (render_all x cs) (segment_of c d)
          ∙ ap (after_bar (segment_of c d)) (parse-render x cs e ds g.2))
