-- ===== src/Blocklist/Growth.antt =====
-- What LoadFiles keeps of the live set.
use rcvd.Prelude.{
  ℕ, ◌+◌, ◌≡◌, refl, ◌∙◌, inl, inr, Bool, true, Option, List, [], ◌∷◌, Bool-cases, Option-cases,
}
use rcvd.Text.{Text, TextSet, has, add, has-add_mono}
use rcvd.Text.Fields.{Lines}
use rcvd.Blocklist.{Sets, Blocklist, normalize, is_blocked, scan_into}
use rcvd.Blocklist.Sources.{add_all, parse_file, load_file, load_each, load_files, LoadError}
use rcvd.Blocklist.Lookup.{Blocks, is_blocked-Blocks}

has-add_all : (m ks : TextSet) (j : Text) → has m j ≡ true → has (add_all m ks) j ≡ true
unfolding add_all
has-add_all m [] j h = h
has-add_all m (k ∷ ks) j h = has-add_all (add m k) ks j (has-add_mono m k j h)

-- What `s` blocks, `t` blocks.
abbrev Within : Sets → Sets → Type 0
Within s t =
    ((j : Text) → has s.domains j ≡ true → has t.domains j ≡ true)
    × ((j : Text) → has s.wildcard j ≡ true → has t.wildcard j ≡ true)

Blocks-mono : (s t : Sets) (n : Text) → Within s t → Blocks s n → Blocks t n
Blocks-mono s t n w (inl h) = inl (w.0 n h)
Blocks-mono s t n w (inr (r, below, inl h)) = inr (r, below, inl (w.0 r h))
Blocks-mono s t n w (inr (r, below, inr h)) = inr (r, below, inr (w.1 _ h))

-- The new list has the switch of the old one, and blocks what the old one blocked.
pub record Extends (b b' : Blocklist) : Type 0 where
  pub switch : b'.enabled ≡ b.enabled
  pub within : Within b.sets b'.sets

Extends-refl : (b : Blocklist) → Extends b b
Extends-refl b = record { switch = refl; within = (λ j h. h, λ j h. h) }

Extends-trans : {a b c : Blocklist} → Extends a b → Extends b c → Extends a c
Extends-trans p q = record {
  switch = q.switch ∙ p.switch;
  within = (λ j h. q.within.0 j (p.within.0 j h), λ j h. q.within.1 j (p.within.1 j h));
}

parse_file-Extends :
    (is_ip : Text → Bool) (b : Blocklist) (r : Lines) → Extends b (parse_file is_ip b r).0
unfolding parse_file scan_into
parse_file-Extends is_ip b r = elim (Bool-cases r.failed) [
  | inl y ↦ rw y (Extends-refl b)
  | inr n ↦ rw n (record {
    switch = refl;
    within = (λ j h. has-add_all b.domains _ j h, λ j h. has-add_all b.wildcard _ j h);
  })
]

load_file-Extends :
    (is_ip : Text → Bool) (open_at : Text → Option Lines) (b : Blocklist) (p : Text)
    → Extends b (load_file is_ip open_at b p).0
unfolding load_file
load_file-Extends is_ip open_at b p = elim (Option-cases (open_at p)) [
  | inl e ↦ rw (e, load_file) (Extends-refl b)
  | inr (r, e) ↦ rw (e, load_file) (parse_file-Extends is_ip b r)
]

load_each-Extends :
    (load : Blocklist → Text → Blocklist × ℕ × Option LoadError)
    → ((b : Blocklist) (p : Text) → Extends b (load b p).0)
    → (b : Blocklist) (n : ℕ) (ps : List Text) → Extends b (load_each load b n ps).0
unfolding load_each
load_each-Extends load keep b n [] = Extends-refl b
load_each-Extends load keep b n (p ∷ ps) = elim (Option-cases (load b p).2) [
  | inl e ↦
      rw (e, load_each)
        (Extends-trans (keep b p) (load_each-Extends load keep (load b p).0 (n + (load b p).1) ps))
  | inr (err, e) ↦ rw (e, load_each) (keep b p)
]

-- LoadFiles only adds: whatever the files hold, and wherever an error ends the loop, every name
-- that was blocked is blocked afterwards.
pub load_files-keeps :
    (is_ip : Text → Bool) (open_at : Text → Option Lines) (b : Blocklist) (paths : List Text)
    (n : Text)
    → is_blocked b n ≡ true
    → is_blocked (load_files is_ip open_at b paths).0 n ≡ true
unfolding load_files
load_files-keeps is_ip open_at b paths n h =
    let grown =
      load_each-Extends (load_file is_ip open_at) (load_file-Extends is_ip open_at) b 0 paths in
    let (on, bl) = (is_blocked-Blocks b n).0 h in
    (is_blocked-Blocks _ n).1
      (grown.switch ∙ on, Blocks-mono b.sets _ (normalize n) grown.within bl)
