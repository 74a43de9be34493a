-- ===== src/Agent/Edit/Whole.antt =====
-- An edit replaces a file as a whole, or not at all.
use xrunner.Base.{Option, Text, [], ap, none, refl, some, sym, ℕ, ◌++◌, ◌∙◌, ◌≡◌, ◌≢◌}
use xrunner.Agent.Edit.{
  and_then, fill_and_rename, mode_or_default, or_close, parent_dir, replace_file, with_temp,
}
use xrunner.Agent.Os.{Created, Os, created, not_created}
use xrunner.Agent.Paths.{FilePath}

-- What the edit relies on of the operating system; `content` is what a file has, `none` if there is
-- no such file.
pub record FileLaws {F : Type 0} (os : Os F) (content : FilePath → F → Option Text) : Type 0 where
  pub mkdir_all-content : (d p : FilePath) (w : F) → content p (os.mkdir_all d w).1 ≡ content p w
  pub create_temp-fresh :
      (d tmp : FilePath) (w : F) → (os.create_temp d w).0 ≡ created tmp → content tmp w ≡ none
  pub create_temp-content :
      (d p : FilePath) (old : Text) (w : F)
      → content p w ≡ some old
      → content p (os.create_temp d w).1 ≡ some old
  pub create_temp-new :
      (d tmp : FilePath) (w : F)
      → (os.create_temp d w).0 ≡ created tmp
      → content tmp (os.create_temp d w).1 ≡ some []
  pub chmod-content : (t p : FilePath) (m : ℕ) (w : F) → content p (os.chmod t m w).1 ≡ content p w
  pub write_string-others :
      (t p : FilePath) (s : Text) (w : F)
      → p ≢ t
      → content p (os.write_string t s w).1 ≡ content p w
  pub write_string-content :
      (t : FilePath) (s old : Text) (w : F)
      → (os.write_string t s w).0 ≡ none
      → content t w ≡ some old
      → content t (os.write_string t s w).1 ≡ some (old ++ s)
  pub sync-content : (t p : FilePath) (w : F) → content p (os.sync t w).1 ≡ content p w
  pub close_file-content : (t p : FilePath) (w : F) → content p (os.close_file t w).1 ≡ content p w
  pub rename-target :
      (a b : FilePath) (w : F)
      → (os.rename a b w).0 ≡ none
      → content b (os.rename a b w).1 ≡ content a w
  pub rename-failed :
      (a b p : FilePath) (msg : Text) (w : F)
      → (os.rename a b w).0 ≡ some msg
      → content p (os.rename a b w).1 ≡ content p w
  pub remove-others : (t p : FilePath) (w : F) → p ≢ t → content p (os.remove t w) ≡ content p w

different : {o : Option Text} {t : Text} → o ≡ none → o ≢ some t
different absent h = cc

module _ {F : Type 0} (os : Os F) (content : FilePath → F → Option Text)
    (laws : FileLaws os content) where
  -- A file has its new content if there was no error, and its old one otherwise.
  abbrev pub Whole : FilePath → Text → Text → Option Text × F → Type 0
  Whole abs old body (none, w) = content abs w ≡ some body
  Whole abs old body (some msg, w) = content abs w ≡ some old

  -- The states of an edit before the file is renamed: the target has its old content, and the
  -- temporary file that of `text`, unless there was an error.
  abbrev Ready : FilePath → FilePath → Text → Text → Option Text × F → Type 0
  Ready abs tmp old text (none, w) = (content abs w ≡ some old) × (content tmp w ≡ some text)
  Ready abs tmp old text (some msg, w) = content abs w ≡ some old

  and_then-Whole :
      (abs tmp : FilePath) (old text body : Text) (r : Option Text × F) (next : F → Option Text × F)
      → Ready abs tmp old text r
      → ((w : F)
          → content abs w ≡ some old
          → content tmp w ≡ some text
          → Whole abs old body (next w))
      → Whole abs old body (and_then os r next)
  and_then-Whole abs tmp old text body (none, w) next (a, t) k = k w a t
  and_then-Whole abs tmp old text body (some msg, w) next a k = a

  or_close-Ready :
      (abs tmp : FilePath) (old text : Text) (r : Option Text × F)
      → Ready abs tmp old text r
      → Ready abs tmp old text (or_close os tmp r)
  or_close-Ready abs tmp old text (none, w) h = h
  or_close-Ready abs tmp old text (some msg, w) h = laws.close_file-content tmp abs w ∙ h

  -- An operation that leaves both files alone.
  still :
      (abs tmp : FilePath) (old text : Text) (r : Option Text × F)
      → content abs r.1 ≡ some old
      → content tmp r.1 ≡ some text
      → Ready abs tmp old text r
  still abs tmp old text (none, w) a t = (a, t)
  still abs tmp old text (some msg, w) a t = a

  written :
      (abs tmp : FilePath) (old body : Text) (r : Option Text × F)
      → content abs r.1 ≡ some old
      → (r.0 ≡ none → content tmp r.1 ≡ some body)
      → Ready abs tmp old body r
  written abs tmp old body (none, w) a t = (a, t refl)
  written abs tmp old body (some msg, w) a t = a

  renamed :
      (abs : FilePath) (old body : Text) (r : Option Text × F)
      → (r.0 ≡ none → content abs r.1 ≡ some body)
      → ((msg : Text) → r.0 ≡ some msg → content abs r.1 ≡ some old)
      → Whole abs old body r
  renamed abs old body (none, w) done failure = done refl
  renamed abs old body (some msg, w) done failure = failure msg refl

  fill_and_rename-Whole :
      (abs tmp : FilePath) (mode : ℕ) (old body : Text) (w : F)
      → abs ≢ tmp
      → content abs w ≡ some old
      → content tmp w ≡ some []
      → Whole abs old body (fill_and_rename os tmp abs mode body w)
  unfolding fill_and_rename
  fill_and_rename-Whole abs tmp mode old body w apart a t =
      and_then-Whole abs tmp old [] body (or_close os tmp (os.chmod tmp mode w)) _
        (or_close-Ready abs tmp old [] (os.chmod tmp mode w) (
          still abs tmp old [] (os.chmod tmp mode w) (laws.chmod-content tmp abs mode w ∙ a)
            (laws.chmod-content tmp tmp mode w ∙ t)))
        λ w a t.
          and_then-Whole abs tmp old body body (or_close os tmp (os.write_string tmp body w)) _
            (or_close-Ready abs tmp old body (os.write_string tmp body w) (
              written abs tmp old body (os.write_string tmp body w)
                (laws.write_string-others tmp abs body w apart ∙ a)
                (λ ok. laws.write_string-content tmp body [] w ok t)))
            λ w a t.
              and_then-Whole abs tmp old body body (or_close os tmp (os.sync tmp w)) _
                (or_close-Ready abs tmp old body (os.sync tmp w) (
                  still abs tmp old body (os.sync tmp w) (laws.sync-content tmp abs w ∙ a)
                    (laws.sync-content tmp tmp w ∙ t)))
                λ w a t.
                  and_then-Whole abs tmp old body body (os.close_file tmp w) _
                    (still abs tmp old body (os.close_file tmp w)
                      (laws.close_file-content tmp abs w ∙ a)
                      (laws.close_file-content tmp tmp w ∙ t))
                    λ w a t.
                      renamed abs old body (os.rename tmp abs w)
                        (λ ok. laws.rename-target tmp abs w ok ∙ t)
                        (λ msg no. laws.rename-failed tmp abs abs msg w no ∙ a)

  removed :
      (abs tmp : FilePath) (old body : Text) (r : Option Text × F)
      → abs ≢ tmp
      → Whole abs old body r
      → Whole abs old body (r.0, os.remove tmp r.1)
  removed abs tmp old body (none, w) apart h = laws.remove-others tmp abs w apart ∙ h
  removed abs tmp old body (some msg, w) apart h = laws.remove-others tmp abs w apart ∙ h

  with_temp-Whole :
      (abs : FilePath) (mode : ℕ) (old body : Text) (r : Created × F)
      → content abs r.1 ≡ some old
      → ((tmp : FilePath) → r.0 ≡ created tmp → (abs ≢ tmp) × (content tmp r.1 ≡ some []))
      → Whole abs old body (with_temp os abs mode body r)
  unfolding with_temp
  with_temp-Whole abs mode old body (not_created msg, w) a fresh = a
  with_temp-Whole abs mode old body (created tmp, w) a fresh =
      let (apart, t) = fresh tmp refl in
      removed abs tmp old body (fill_and_rename os tmp abs mode body w) apart
        (fill_and_rename-Whole abs tmp mode old body w apart a t)

  -- An edit of a file that exists, by an operating system whose operations do what is documented of
  -- them, either returns no error and the file then has exactly the new content, or returns an error
  -- and the file still has exactly its old content.
  pub replace_file-Whole :
      (abs : FilePath) (mode : ℕ) (old body : Text) (w : F)
      → content abs w ≡ some old
      → Whole abs old body (replace_file os abs mode body w)
  unfolding replace_file
  replace_file-Whole abs mode old body w a =
      let dir = parent_dir abs in
      let made = os.mkdir_all dir w in
      let kept = laws.mkdir_all-content dir abs w ∙ a in
      and_then-Whole abs abs old old body made _ (still abs abs old old made kept kept) λ w a b.
        with_temp-Whole abs (mode_or_default mode) old body (os.create_temp dir w)
          (laws.create_temp-content dir abs old w a)
          λ tmp e.
            let absent = laws.create_temp-fresh dir tmp w e in
            (
              λ same. different absent (ap (λ p. content p w) (sym same) ∙ a),
              laws.create_temp-new dir tmp w e,
            )
