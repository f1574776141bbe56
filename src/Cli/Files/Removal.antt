-- ===== src/Cli/Files/Removal.antt =====
-- How deep `rmNonEmptyDir` of cli/src/utils.js goes.
use habs.Base.{
  ◌≡◌, ◌≢◌, ◌≤◌, ◌<◌, refl, ◌∙◌, ap, arith, ℕ, zero, suc, String, Bool, true, false, Bool-cases,
  inl, inr, List, [], ◌∷◌, ◌<>◌, if◌then◌else◌, Result, ok, err, pending, Exec, continue, ◌>>=◌,
  ◌>>◌,
}
use habs.Cli.Files.{Files, for_each, rm_entry, rm_non_empty_dir}

-- A file system of finitely many directories, without links to a directory above: `depth` bounds the
-- directories below a path. Its calls are synchronous, and none of those that list and remove makes
-- a path deeper.
pub record Finite {W A B : Type 0} (files : Files W A B) : Type 0 where
  pub depth : W → String → ℕ
  pub below :
      (path name : String) (w : W)
      → (files.is_directory (path <> "/" <> name) w).0 ≡ ok true
      → depth w (path <> "/" <> name) < depth w path
  pub readdir_ends : (path : String) (w : W) → (files.readdir path w).0 ≢ pending
  pub is_directory_ends : (path : String) (w : W) → (files.is_directory path w).0 ≢ pending
  pub unlink_ends : (path : String) (w : W) → (files.unlink path w).0 ≢ pending
  pub rmdir_ends : (path : String) (w : W) → (files.rmdir path w).0 ≢ pending
  pub readdir_depth : (path q : String) (w : W) → depth (files.readdir path w).1 q ≤ depth w q
  pub is_directory_depth :
      (path q : String) (w : W) → depth (files.is_directory path w).1 q ≤ depth w q
  pub unlink_depth : (path q : String) (w : W) → depth (files.unlink path w).1 q ≤ depth w q
  pub rmdir_depth : (path q : String) (w : W) → depth (files.rmdir path w).1 q ≤ depth w q

module _ {W A B : Type 0} (files : Files W A B) (m : Finite files) where
  -- No path has become deeper.
  abbrev Lower : W → W → Type 0
  Lower w v = (q : String) → m.depth v q ≤ m.depth w q

  -- Two runs are one, which ends and makes no path deeper.
  abbrev Agree : {C : Type 0} → Exec W C → Exec W C → W → Type 0
  Agree f g w = (f w ≡ g w) × ((f w).0 ≢ pending) × Lower w (f w).1

  then-Agree :
      {C D : Type 0} (f : Exec W C) (g h : C → Exec W D) (w : W)
      → (f w).0 ≢ pending
      → Lower w (f w).1
      → ((c : C) → (f w).0 ≡ ok c → Agree (g c) (h c) (f w).1)
      → Agree (f >>= g) (f >>= h) w
  then-Agree f g h w ends lower after = by_result (f w).0 refl
    where
      by_result :
          (r : Result _)
          → (f w).0 ≡ r
          → (continue r g (f w).1 ≡ continue r h (f w).1)
            × ((continue r g (f w).1).0 ≢ pending)
            × Lower w (continue r g (f w).1).1
      by_result (ok c) e =
          let (same, done, lower2) = after c e in
          (same, done, λ q. omega (arith, lower q, lower2 q))
      by_result (err x) e = (refl, (λ p. ground (arith, p)), lower)
      by_result pending e = absurd (ends e)

  both-Agree :
      {C D : Type 0} (f f' : Exec W C) (g h : C → Exec W D) (w : W)
      → Agree f f' w
      → ((c : C) → (f w).0 ≡ ok c → Agree (g c) (h c) (f w).1)
      → Agree (f >>= g) (f' >>= h) w
  both-Agree f f' g h w (same, ends, lower) after =
      let (rest, done, low) = then-Agree f g h w ends lower after in
      (rest ∙ ap (λ (r : Result _ × W). continue r.0 h r.1) same, done, low)

  for_each-Agree :
      (f g : String → Exec W (Unit {0})) (names : List String) (w0 w : W)
      → ((name : String) (v : W) → Lower w0 v → Agree (f name) (g name) v)
      → Lower w0 w
      → Agree (for_each names f) (for_each names g) w
  unfolding for_each
  for_each-Agree f g [] w0 w step low = (refl, (λ p. ground (arith, p)), λ q. omega arith)
  for_each-Agree f g (name ∷ names) w0 w step low =
      let first = step name w low in
      both-Agree (f name) (g name) _ _ w first
        λ c e. for_each-Agree f g names w0 (f name w).1 step λ q. omega (arith, low q, first.2 q)

  rm_entry-Agree :
      (f g : String → Exec W (Unit {0})) (path filename : String) (w : W)
      → ((p : String) (v : W) → m.depth v p < m.depth w path → Agree (f p) (g p) v)
      → Agree (rm_entry files f path filename) (rm_entry files g path filename) w
  unfolding rm_entry
  rm_entry-Agree f g path filename w step =
      let entry = path <> "/" <> filename in
      then-Agree (files.is_directory entry) _ _ w (m.is_directory_ends entry w)
        (λ q. m.is_directory_depth entry q w) by_kind
    where
      by_kind :
          (directory : Bool)
          → (files.is_directory (path <> "/" <> filename) w).0 ≡ ok directory
          → Agree
              (if directory
                then f (path <> "/" <> filename)
                else files.unlink (path <> "/" <> filename))
              (if directory
                then g (path <> "/" <> filename)
                else files.unlink (path <> "/" <> filename))
              (files.is_directory (path <> "/" <> filename) w).1
      by_kind true e = step (path <> "/" <> filename) _ (
          omega (
            arith,
            m.below path filename w e,
            m.is_directory_depth (path <> "/" <> filename) (path <> "/" <> filename) w,
          ))
      by_kind false e = (refl, m.unlink_ends _ _, λ q. m.unlink_depth _ q _)

  entries-Agree :
      (f g : String → Exec W (Unit {0})) (path : String) (names : List String) (w : W)
      → ((p : String) (v : W) → m.depth v p < m.depth w path → Agree (f p) (g p) v)
      → Agree
          (for_each names (rm_entry files f path) >> files.rmdir path)
          (for_each names (rm_entry files g path) >> files.rmdir path)
          (files.readdir path w).1
  entries-Agree f g path names w deeper =
      let w1 = (files.readdir path w).1 in
      let fs = for_each names (rm_entry files f path) in
      let gs = for_each names (rm_entry files g path) in
      let removed : Agree fs gs w1 =
        for_each-Agree (rm_entry files f path) (rm_entry files g path) names w w1
          (λ name v low.
            rm_entry-Agree f g path name v λ p u less. deeper p u (omega (arith, less, low path)))
          (λ q. m.readdir_depth path q w) in
      both-Agree fs gs (λ _. files.rmdir path) (λ _. files.rmdir path) w1 removed
        λ c e. (refl, m.rmdir_ends path (fs w1).1, λ q. m.rmdir_depth path q (fs w1).1)

  rm_non_empty_dir-Agree :
      (n k : ℕ) (path : String) (w : W)
      → m.depth w path < n
      → m.depth w path < k
      → Agree (rm_non_empty_dir files n path) (rm_non_empty_dir files k path) w
  unfolding rm_non_empty_dir
  rm_non_empty_dir-Agree zero k path w enough more = absurd (omega (arith, enough))
  rm_non_empty_dir-Agree (suc n) zero path w enough more = absurd (omega (arith, more))
  rm_non_empty_dir-Agree (suc n) (suc k) path w enough more =
      let deeper : (p : String) (v : W)
          → m.depth v p < m.depth w path
          → Agree (rm_non_empty_dir files n p) (rm_non_empty_dir files k p) v =
        λ p v less.
          rm_non_empty_dir-Agree n k p v (omega (arith, less, enough))
            (omega (arith, less, more)) in
      elim (Bool-cases (files.exists path w)) [
        | inl here ↦ rw here (
            then-Agree (files.readdir path) _ _ w (m.readdir_ends path w)
              (λ q. m.readdir_depth path q w) λ names e. entries-Agree _ _ path names w deeper)
        | inr absent ↦ rw absent (refl, (λ p. ground (arith, p)), λ q. omega arith)
      ]

  -- On a file system of finitely many directories, without links to a directory above,
  -- rmNonEmptyDir ends, with whatever result, as soon as the fuel is above the depth of the path;
  -- more fuel makes no difference.
  pub rm_non_empty_dir-ends :
      (n k : ℕ) (path : String) (w : W)
      → m.depth w path < n
      → m.depth w path < k
      → (rm_non_empty_dir files n path w ≡ rm_non_empty_dir files k path w)
        × ((rm_non_empty_dir files n path w).0 ≢ pending)
  rm_non_empty_dir-ends n k path w enough more =
      let (same, ends, lower) = rm_non_empty_dir-Agree n k path w enough more in (same, ends)
