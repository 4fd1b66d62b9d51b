-- ===== src/Work/Visit.antt =====
-- `Discovery::visit` and `visit_directory` of crates/cao-core/src/run/executor/work_phases.rs.
use cao.Shared.{Bool, true, false, [], ◌∷◌, ◌++◌, Option, none, some, if◌then◌else◌, Text}
use cao.Shared.Paths.{FilePath, normal, file_name}
use cao.Run.Lifecycle.{RunPhase}
use cao.Selection.Names.{is_staging_name}
use cao.Selection.Overlap.{Token}
use cao.Work.Toolset.{
  Directory, unreadable, listed, Entries, end, broken, entry, Content, file, other, folder,
}
use cao.Work.Worker.{Worker, tick}
use cao.Work.Scope.{within_scope}

abbrev pub names_staging : Option Text → Bool
unfolding is_staging_name
names_staging none = false
names_staging (some name) = is_staging_name name

-- Whether a walk is complete, what its visitor made, and the state.
abbrev pub Walked : Type 0 → Type 0 → Type 0 → Type 0
Walked A W V = Bool × V × Worker A W

module _ {A W V : Type 0} where
  abbrev pub when_complete : Walked A W V → Walked A W V → Walked A W V
  when_complete here rest = if here.0 then rest else here

  -- An entry that was read: `inside` is what its content gives.
  abbrev pub after_scope : V → Bool × Worker A W → Walked A W V → Walked A W V
  after_scope v scoped inside = if scoped.0 then inside else (true, v, scoped.1)

module _ {A W V : Type 0} (stop : Token) (phase : RunPhase) (visitor : V → FilePath → V) where
  unfoldable mutual
    -- `visit_directory`: a directory that cannot be read is absent.
    pub visit_directory : FilePath → FilePath → Directory → V → Worker A W → Walked A W V
    visit_directory root path unreadable v w = (true, v, w)
    visit_directory root path (listed es) v w = visit_entries root path es v w

    -- Its loop; the token is sampled for each entry.
    pub visit_entries : FilePath → FilePath → Entries → V → Worker A W → Walked A W V
    visit_entries root path end v w = (true, v, w)
    visit_entries root path (broken es) v w =
        let rest = visit_entries root path es v (tick w) in
        if stop w.clock then (false, v, tick w) else rest
    visit_entries root path (entry name link content es) v w =
        let here = path ++ normal name ∷ [] in
        let scoped = within_scope phase here root link (tick w) in
        let inside =
          if is_staging_name name
          then (true, v, tick w)
          else after_scope v scoped (visit_content root here content v scoped.1) in
        let rest = when_complete inside (visit_entries root path es inside.1 inside.2) in
        if stop w.clock then (false, v, tick w) else rest

    pub visit_content : FilePath → FilePath → Content → V → Worker A W → Walked A W V
    visit_content root path file v w = (true, visitor v path, w)
    visit_content root path other v w = (true, v, w)
    visit_content root path (folder d) v w = visit_directory root path d v w

  -- `Discovery::visit`
  unfoldable pub visit : FilePath → Directory → V → Worker A W → Walked A W V
  unfolding file_name
  visit root d v w =
      if names_staging (file_name root) then (true, v, w) else visit_directory root root d v w
