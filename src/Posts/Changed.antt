-- ===== src/Posts/Changed.antt =====
-- The rows that the UPDATE statements of internal/modules/post/store.go change, and the post that
-- their callers get back.
use golang_template.Prelude.{
  ℕ, suc, ◌≡◌, refl, sym, ap, ◌∙◌, Bool, true, false, ◌&&◌, eqb, eqb_iff, List, [], ◌∷◌, ◌++◌,
  if◌then◌else◌,
}
use golang_template.Errors.{Err, Result, ok, err, ok-injective}
use golang_template.Posts.{
  Post, Tables, replace_row, keep_row, change_row, bump, active, update_where, updated_row,
  scan_updated, update_post, delete_where, deleted_row, scan_deleted, delete_post,
}
use golang_template.Posts.Yielding.{and3, err-is_no_ok}
use golang_template.Posts.Invariants.{bump-ok}

-- The row `r` of a list gave way to `r'`, in its place, and nothing else changed.
pub record Replaced (r r' : Post) (old new : List Post) : Type 0 where
  pub before : List Post
  pub after : List Post
  pub was : old ≡ before ++ r ∷ after
  pub is_now : new ≡ before ++ r' ∷ after

replaced_by :
    {r q q' : Post} {old new : List Post} → q ≡ q' → Replaced r q' old new → Replaced r q old new
replaced_by e h = rw e h

-- A row for which a test holds was replaced by the row that a change makes of it.
pub record ChangedRow (wanted : Post → Bool) (change : Post → Result Post) (r' : Post)
    (old new : List Post) : Type 0 where
  pub row : Post
  pub chosen : wanted row ≡ true
  pub changed : change row ≡ ok r'
  pub replaced : Replaced row r' old new

module _ (wanted : Post → Bool) (change : Post → Result Post) where
  here :
      (res : Result Post) (r : Post) (rows : List Post) (r' : Post)
      → wanted r ≡ true
      → change r ≡ res
      → (replace_row res r rows).0 ≡ ok r'
      → ChangedRow wanted change r' (r ∷ rows) (replace_row res r rows).1
  here (ok q) r rows r' chosen e h = record {
    row = r;
    chosen = chosen;
    changed = e ∙ h;
    replaced = record {
      before = [];
      after = rows;
      was = refl;
      is_now = ap (λ x. x ∷ rows) (ok-injective q r' h);
    };
  }
  here (err x) r rows r' chosen e h = cc

  further :
      (r : Post) (rows : List Post) (rest : Result Post × List Post) (r' : Post)
      → ChangedRow wanted change r' rows rest.1
      → ChangedRow wanted change r' (r ∷ rows) (keep_row r rest).1
  further r rows (res, left) r' c = record {
    row = c.row;
    chosen = c.chosen;
    changed = c.changed;
    replaced = record {
      before = r ∷ c.replaced.before;
      after = c.replaced.after;
      was = ap (λ l. r ∷ l) c.replaced.was;
      is_now = ap (λ l. r ∷ l) c.replaced.is_now;
    };
  }

  kept_result : (r : Post) (rest : Result Post × List Post) → (keep_row r rest).0 ≡ rest.0
  kept_result r (res, left) = refl

  by_test :
      (b : Bool) (r : Post) (rows : List Post) (r' : Post)
      → wanted r ≡ b
      → ((change_row wanted change rows).0 ≡ ok r'
          → ChangedRow wanted change r' rows (change_row wanted change rows).1)
      → (if b then replace_row (change r) r rows else keep_row r (change_row wanted change rows)).0
        ≡ ok r'
      → ChangedRow wanted change r'
          (r ∷ rows)
          (if b
            then replace_row (change r) r rows
            else keep_row r (change_row wanted change rows)).1
  by_test true r rows r' chosen rest h = here (change r) r rows r' chosen refl h
  by_test false r rows r' other rest h =
      further r rows (change_row wanted change rows) r'
        (rest (sym (kept_result r (change_row wanted change rows)) ∙ h))

  change_row-ChangedRow :
      (rows : List Post) (r' : Post)
      → (change_row wanted change rows).0 ≡ ok r'
      → ChangedRow wanted change r' rows (change_row wanted change rows).1
  change_row-ChangedRow [] r' h = cc
  change_row-ChangedRow (r ∷ rows) r' h =
      by_test (wanted r) r rows r' refl (change_row-ChangedRow rows r') h

pub and_split : (a b : Bool) → a && b ≡ true → (a ≡ true) × (b ≡ true)
and_split true b h = (refl, h)
and_split false b h = cc

pub update_where-true :
    (p r : Post)
    → update_where p r ≡ true
    → (r.id ≡ p.id) × (r.version ≡ p.version) × (active r ≡ true)
unfolding update_where
update_where-true p r h =
    let (same, current, live) = and3 (eqb r.id p.id) (eqb r.version p.version) (active r) h in
    ((eqb_iff r.id p.id).0 same, (eqb_iff r.version p.version).0 current, live)

pub delete_where-true : (p r : Post) → delete_where p r ≡ true → (r.id ≡ p.id) × (active r ≡ true)
unfolding delete_where
delete_where-true p r h =
    let (same, live) = and_split (eqb r.id p.id) (active r) h in ((eqb_iff r.id p.id).0 same, live)

-- An update of the post `p` changed a live row with its id and its version, and returned `a`: the
-- caller's post with the next version.
pub record Updated (now : ℕ) (p a : Post) (t t' : Tables) : Type 0 where
  pub row : Post
  pub found : row.id ≡ p.id
  pub current : row.version ≡ p.version
  pub live : active row ≡ true
  pub replaced : Replaced row (updated_row now p row) t.posts t'.posts
  pub same_id : a.id ≡ p.id
  pub same_visible : a.is_visible ≡ p.is_visible
  pub next_version : a.version ≡ suc p.version

scanned_update :
    (p r : Post) (res : Result Post) (a : Post)
    → res ≡ ok r
    → scan_updated p res ≡ ok a
    → (a.id ≡ p.id) × (a.is_visible ≡ r.is_visible) × (a.version ≡ r.version)
scanned_update p r (ok q) a e h =
    let same = ok-injective q r e in
    let back = sym (ok-injective _ a h) in
    (
      ap (λ (x : Post). x.id) back,
      ap (λ (x : Post). x.is_visible) back ∙ ap (λ (x : Post). x.is_visible) same,
      ap (λ (x : Post). x.version) back ∙ ap (λ (x : Post). x.version) same,
    )
scanned_update p r (err x) a e h = cc

scanned_from_row :
    (scan : Result Post → Result Post) (res : Result Post) (a : Post)
    → ((x : Err) → scan (err x) ≡ err x)
    → scan res ≡ ok a
    → (r : Post) × (res ≡ ok r)
scanned_from_row scan (ok r) a fails h = (r, refl)
scanned_from_row scan (err x) a fails h = absurd (err-is_no_ok x (sym (fails x) ∙ h))

pub update_post-Updated :
    (now : ℕ) (p a : Post) (t : Tables)
    → (update_post now p t).0 ≡ ok a
    → Updated now p a t (update_post now p t).1
unfolding update_post
update_post-Updated now p a t h =
    let (r, found) = scanned_from_row (scan_updated p) _ a (λ x. refl) h in
    let c = change_row-ChangedRow (update_where p) (bump now p) t.posts r found in
    let (same, current, live) = update_where-true p c.row c.chosen in
    let new = bump-ok now p c.row r c.changed in
    let (id, visible, version) = scanned_update p r _ a found h in
    record {
      row = c.row;
      found = same;
      current = current;
      live = live;
      replaced = replaced_by new c.replaced;
      same_id = id;
      same_visible = visible ∙ sym (ap (λ (x : Post). x.is_visible) new);
      next_version = version ∙ sym (ap (λ (x : Post). x.version) new) ∙ ap suc current;
    }

-- A deletion of the post `p` marked a live row with its id, and returned `a`: the caller's post
-- with the version that the caller read.
pub record Deleted (now : ℕ) (p a : Post) (t t' : Tables) : Type 0 where
  pub row : Post
  pub found : row.id ≡ p.id
  pub live : active row ≡ true
  pub replaced : Replaced row (deleted_row now p row) t.posts t'.posts
  pub same_id : a.id ≡ p.id
  pub same_version : a.version ≡ p.version

scanned_deletion :
    (p : Post) (res : Result Post) (a : Post)
    → scan_deleted p res ≡ ok a
    → (a.id ≡ p.id) × (a.version ≡ p.version)
scanned_deletion p (ok q) a h =
    let back = sym (ok-injective _ a h) in
    (ap (λ (x : Post). x.id) back, ap (λ (x : Post). x.version) back)
scanned_deletion p (err x) a h = cc

pub delete_post-Deleted :
    (now : ℕ) (p a : Post) (t : Tables)
    → (delete_post now p t).0 ≡ ok a
    → Deleted now p a t (delete_post now p t).1
unfolding delete_post
delete_post-Deleted now p a t h =
    let (r, found) = scanned_from_row (scan_deleted p) _ a (λ x. refl) h in
    let c =
      change_row-ChangedRow (delete_where p) (λ q. ok (deleted_row now p q)) t.posts r found in
    let (same, live) = delete_where-true p c.row c.chosen in
    let (id, version) = scanned_deletion p _ a h in
    record {
      row = c.row;
      found = same;
      live = live;
      replaced = replaced_by (ok-injective _ r c.changed) c.replaced;
      same_id = id;
      same_version = version;
    }
