-- ===== src/Work/Walked.antt =====
-- What `Discovery::visit` of crates/cao-core/src/run/executor/work_phases.rs visits.
use cao.Shared.{
  ℕ, ◌+◌, Bool, true, false, not, ◌&&◌, List, [], ◌∷◌, ◌++◌, none, some, ◌≡◌, refl, sym, ap, ◌∙◌,
  inl, inr, Bool-cases, Option-cases, if◌then◌else◌, any, All, append_assoc,
}
use cao.Shared.Paths.{FilePath, normal, file_name, component_text}
use cao.Shared.Prefixes.{strip_prefix}
use cao.Run.Lifecycle.{RunPhase}
use cao.Selection.Names.{is_staging_name}
use cao.Selection.Overlap.{Token}
use cao.Work.Toolset.{
  Link, vanished, direct, linked, Directory, unreadable, listed, Entries, end, broken, entry,
  Content, file, other, folder,
}
use cao.Work.Worker.{Worker, tick}
use cao.Work.Scope.{within_scope, resolved_detail}
use cao.Work.Visit.{
  names_staging, Walked, after_scope, when_complete, visit, visit_directory, visit_entries,
  visit_content,
}
use cao.Work.Beneath.{
  is_in_scope, files_of, files_in, files_at, files_beneath, LiesBeneath, files_beneath-LieBeneath,
}

-- What a visitor makes of files that it visits one after the other.
abbrev pub visit_all : {V : Type 0} → (V → FilePath → V) → List FilePath → V → V
visit_all visitor [] v = v
visit_all visitor (p ∷ ps) v = visit_all visitor ps (visitor v p)

visit_all-append :
    {V : Type 0} (visitor : V → FilePath → V) (ps qs : List FilePath) (v : V)
    → visit_all visitor (ps ++ qs) v ≡ visit_all visitor qs (visit_all visitor ps v)
visit_all-append visitor [] qs v = refl
visit_all-append visitor (p ∷ ps) qs v = visit_all-append visitor ps qs (visitor v p)

within_scope_lem :
    {A W : Type 0} (phase : RunPhase) (path root : FilePath) (link : Link) (w : Worker A W)
    → (within_scope phase path root link w).0 ≡ is_in_scope root link
unfolding within_scope resolved_detail is_staging_name
within_scope_lem phase path root vanished w = refl
within_scope_lem phase path root direct w = refl
within_scope_lem phase path root (linked true resolved) w = refl
within_scope_lem phase path root (linked false none) w = refl
within_scope_lem phase path root (linked false (some resolved)) w =
    elim (Option-cases (strip_prefix resolved root)) [
      | inl e ↦ rw (e, is_in_scope, resolved_detail) refl
      | inr (relative, e) ↦
          elim (Bool-cases (any (λ c. is_staging_name (component_text c)) relative)) [
            | inl f ↦ rw (e, is_in_scope, resolved_detail, f) refl
            | inr f ↦ rw (e, is_in_scope, resolved_detail, f) refl
          ]
    ]

module _ {A W V : Type 0} (stop : Token) (visitor : V → FilePath → V) where
  -- A complete walk has visited the files; any other the first ones of them, since the last sample
  -- that it took of the token was a cancellation.
  abbrev pub Follows : List FilePath → V → Walked A W V → Type 0
  Follows files v (true, u, t) = u ≡ visit_all visitor files v
  Follows files v (false, u, t) =
      (done : List FilePath) × (left : List FilePath) × (n : ℕ) × (files ≡ done ++ left)
      × (u ≡ visit_all visitor done v)
      × (t.clock ≡ n + 1)
      × (stop n ≡ true)

  pub Follows-complete :
      (files : List FilePath) (v : V) (o : Walked A W V)
      → Follows files v o
      → o.0 ≡ true
      → o.1 ≡ visit_all visitor files v
  Follows-complete files v (true, u, t) h e = h
  Follows-complete files v (false, u, t) h e = cc

  Follows-append :
      (fs gs : List FilePath) (v u : V) (rest : Walked A W V)
      → u ≡ visit_all visitor fs v
      → Follows gs u rest
      → Follows (fs ++ gs) v rest
  Follows-append fs gs v u (true, x, t) e h =
      h ∙ ap (visit_all visitor gs) e ∙ sym (visit_all-append visitor fs gs v)
  Follows-append fs gs v u (false, x, t) e (done, left, n, split, made, clock, stopped) = (
    fs ++ done,
    left,
    n,
    ap (λ (r : List FilePath). fs ++ r) split ∙ sym (append_assoc fs done left),
    made ∙ ap (visit_all visitor done) e ∙ sym (visit_all-append visitor fs done v),
    clock,
    stopped,
  )

  Follows-then :
      (fs gs : List FilePath) (v : V) (here rest : Walked A W V)
      → Follows fs v here
      → Follows gs here.1 rest
      → Follows (fs ++ gs) v (when_complete here rest)
  Follows-then fs gs v (true, u, t) rest h k = Follows-append fs gs v u rest h k
  Follows-then fs gs v (false, u, t) rest (done, left, n, split, made, clock, stopped) k = (
    done,
    left ++ gs,
    n,
    ap (λ (r : List FilePath). r ++ gs) split ∙ append_assoc done left gs,
    made,
    clock,
    stopped,
  )

  -- An entry whose content has been walked.
  Follows-entry :
      (staging in_scope : Bool) (scoped : Bool × Worker A W) (t : Worker A W) (fs : List FilePath)
      (v : V) (inside : Walked A W V)
      → scoped.0 ≡ in_scope
      → Follows fs v inside
      → Follows
          (if not staging && in_scope then fs else [])
          v
          (if staging then (true, v, t) else after_scope v scoped inside)
  Follows-entry true in_scope scoped t fs v inside e h = refl
  Follows-entry false true scoped t fs v inside e h = rw e h
  Follows-entry false false scoped t fs v inside e h = rw e refl

  Follows-cancelled :
      (fs : List FilePath) (v : V) (w : Worker A W)
      → stop w.clock ≡ true
      → Follows fs v (false, v, tick w)
  Follows-cancelled fs v w e = ([], fs, w.clock, refl, refl, refl, e)

  Follows-sampled :
      (fs : List FilePath) (v : V) (w : Worker A W) (rest : Walked A W V)
      → Follows fs v rest
      → Follows fs v (if stop w.clock then (false, v, tick w) else rest)
  Follows-sampled fs v w rest h = elim (Bool-cases (stop w.clock)) [
    | inl e ↦ rw e (Follows-cancelled fs v w e)
    | inr e ↦ rw e h
  ]

  module _ (phase : RunPhase) where
    mutual
      unfolding visit_directory files_of

      visit_directory-Follows :
          (root path : FilePath) (d : Directory) (v : V) (w : Worker A W)
          → Follows (files_of root path d) v (visit_directory stop phase visitor root path d v w)
      visit_directory-Follows root path unreadable v w = refl
      visit_directory-Follows root path (listed es) v w = visit_entries-Follows root path es v w

      visit_entries-Follows :
          (root path : FilePath) (es : Entries) (v : V) (w : Worker A W)
          → Follows (files_in root path es) v (visit_entries stop phase visitor root path es v w)
      visit_entries-Follows root path end v w = refl
      visit_entries-Follows root path (broken es) v w =
          Follows-sampled (files_in root path es) v w
            (visit_entries stop phase visitor root path es v (tick w))
            (visit_entries-Follows root path es v (tick w))
      visit_entries-Follows root path (entry name link content es) v w =
          let here = path ++ normal name ∷ [] in
          let staging = is_staging_name name in
          let scoped = within_scope phase here root link (tick w) in
          let content_walk = visit_content stop phase visitor root here content v scoped.1 in
          let inside = if staging then (true, v, tick w) else after_scope v scoped content_walk in
          let rest = visit_entries stop phase visitor root path es inside.1 inside.2 in
          let fs =
            if not staging && is_in_scope root link then files_at root here content else [] in
          Follows-sampled (fs ++ files_in root path es) v w (when_complete inside rest) (
            Follows-then fs (files_in root path es) v inside rest
              (Follows-entry staging (is_in_scope root link) scoped (tick w)
                (files_at root here content) v content_walk
                (within_scope_lem phase here root link (tick w))
                (visit_content-Follows root here content v scoped.1))
              (visit_entries-Follows root path es inside.1 inside.2))

      visit_content-Follows :
          (root path : FilePath) (content : Content) (v : V) (w : Worker A W)
          → Follows
              (files_at root path content)
              v
              (visit_content stop phase visitor root path content v w)
      visit_content-Follows root path file v w = refl
      visit_content-Follows root path other v w = refl
      visit_content-Follows root path (folder d) v w = visit_directory-Follows root path d v w

    follows :
        (root : FilePath) (d : Directory) (v : V) (w : Worker A W)
        → Follows (files_beneath root d) v (visit stop phase visitor root d v w)
    unfolding visit files_beneath
    follows root d v w = elim (Bool-cases (names_staging (file_name root))) [
      | inl e ↦ rw e refl
      | inr e ↦ rw e (visit_directory-Follows root root d v w)
    ]

    -- A walk of a Mod Root visits files that are in scope, in the order of enumeration, each under the
    -- path of the root with names after it that are none of CAO staging: a complete walk all such
    -- files, any other first ones of them, and then the last sample of the token was a cancellation.
    pub visit_lem :
        (root : FilePath) (d : Directory) (v : V) (w : Worker A W)
        → All (LiesBeneath root) (files_beneath root d)
          × Follows (files_beneath root d) v (visit stop phase visitor root d v w)
    visit_lem root d v w = (files_beneath-LieBeneath root d, follows root d v w)
