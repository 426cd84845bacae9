-- ===== src/Scaffold/Files.antt =====
-- Directories and files that code makes one after the other, with an early return at the first error, and
-- what such a run writes of what it is to write.
use goplatform.Prelude.{
  ℕ, String, ◌≡◌, refl, sym, ap, ap₂, ◌∙◌, Bool, true, false, not, Option, none, some, List, [],
  ◌∷◌, ◌++◌, append_assoc, append-nil, map, map-append, ◌⊎◌, inl, if◌then◌else◌,
}
use goplatform.Errors.{Error, Arg, wrap}

-- The path and the content of a file.
abbrev pub File : Type 0
File = List ℕ × List ℕ

-- The world, the files written, and the error that ended the run.
abbrev pub Writing : Type 0 → Type 0
Writing W = W × List File × Option Error

-- Go on where there was no error.
abbrev pub and_then : {W : Type 0} → Writing W → (W → Writing W) → Writing W
and_then (w, files, some e) next = (w, files, some e)
and_then (w, files, none) next = let (w', more, err) = next w in (w', files ++ more, err)

-- After os.MkdirAll.
abbrev pub made : {W : Type 0} → String → List Arg → W × Option Error → (W → Writing W) → Writing W
made format args (w, some e) next = (w, [], some (wrap format args e))
made format args (w, none) next = next w

-- After os.WriteFile of a path and a text.
abbrev pub wrote : {W : Type 0} → String → List Arg → List ℕ → List ℕ → W × Option Error → Writing W
wrote format args path text (w, some e) = (w, [], some (wrap format args e))
wrote format args path text (w, none) = (w, (path, text) ∷ [], none)

-- A file to write, with what its content comes to.
abbrev pub Planned : Type 0
Planned = List ℕ × (List ℕ ⊎ Error)

abbrev pub as_planned : File → Planned
as_planned (path, text) = (path, inl text)

-- What is left of the plan where there was no error.
abbrev pub IsComplete : Option Error → List Planned → Type 0
IsComplete none left = left ≡ []
IsComplete (some e) left = Unit

-- The files written are the first of the plan, and all of it if there was no error.
abbrev pub Begun : {W : Type 0} → List Planned → Writing W → Type 0
Begun plan (w, files, err) =
    (left : List Planned) × (map as_planned files ++ left ≡ plan) × IsComplete err left

module _ {W : Type 0} where
  pub and_then-Begun :
      (plan more : List Planned) (r : Writing W) (next : W → Writing W)
      → Begun plan r
      → ((w : W) → Begun more (next w))
      → Begun (plan ++ more) (and_then r next)
  and_then-Begun plan more (w, files, some e) next (left, split, all) h = (
    left ++ more,
    sym (append_assoc (map as_planned files) left more) ∙ ap (λ p. p ++ more) split,
    tt,
  )
  and_then-Begun plan more (w, files, none) next (left, split, all) h =
      let (left', split', all') = h w in
      (
        left',
        ap (λ p. p ++ left') (map-append as_planned files (next w).1)
            ∙ append_assoc (map as_planned files) (map as_planned (next w).1) left'
            ∙ ap₂ (λ p q. p ++ q)
                (sym (append-nil (map as_planned files))
                  ∙ ap (λ p. map as_planned files ++ p) (sym (all))
                  ∙ split)
                split',
        all',
      )

  pub made-Begun :
      (format : String) (args : List Arg) (plan : List Planned) (r : W × Option Error)
      (next : W → Writing W)
      → ((w : W) → Begun plan (next w))
      → Begun plan (made format args r next)
  made-Begun format args plan (w, some e) next h = (plan, refl, tt)
  made-Begun format args plan (w, none) next h = h w

  pub wrote-Begun :
      (format : String) (args : List Arg) (path text : List ℕ) (r : W × Option Error)
      → Begun ((path, inl text) ∷ []) (wrote format args path text r)
  wrote-Begun format args path text (w, some e) = ((path, inl text) ∷ [], refl, tt)
  wrote-Begun format args path text (w, none) = ([], refl, refl)

  -- A part that a test lets through, or leaves out.
  pub if-Begun :
      (b : Bool) (plan : List Planned) (w : W) (r : Writing W)
      → Begun plan r
      → Begun (if b then plan else []) (if b then r else (w, [], none))
  if-Begun true plan w r h = h
  if-Begun false plan w r h = ([], refl, refl)

  pub if_not-Begun :
      (b : Bool) (plan : List Planned) (w : W) (r : Writing W)
      → Begun plan r
      → Begun (if b then plan else []) (if not b then (w, [], none) else r)
  if_not-Begun true plan w r h = h
  if_not-Begun false plan w r h = ([], refl, refl)
