-- ===== src/Screenshot/Quiet.antt =====
-- The descriptors and mappings of a capture's steps; its cleanup touches none.
use test_runner.Prelude.{
  ℕ, suc, ◌≡◌, refl, inl, inr, true, Option, none, some, List, [], ◌∷◌, ◌++◌, ◌==◌, if◌then◌else◌,
  Bool-cases,
}
use test_runner.Prelude.Int.{ℤ, pos, ltb_ℤ}
use test_runner.Screenshot.{
  OutputInfo, CaptureState, Step, memfd_create, mmap, close_fd, munmap, shm_destroy,
  shooter_destroy, registry_destroy, display_disconnect, destroy_outputs, destroy_with, cleanup,
}

-- The descriptors that a run of calls acquires, and those that it closes.
abbrev pub opened : List Step → List ℤ
opened [] = []
opened (memfd_create fd ∷ steps) = if ltb_ℤ fd (pos 0) then opened steps else fd ∷ opened steps
opened (_ ∷ steps) = opened steps

abbrev pub closed : List Step → List ℤ
closed [] = []
closed (close_fd fd ∷ steps) = fd ∷ closed steps
closed (_ ∷ steps) = closed steps

-- The number of mappings made, and of those undone.
abbrev pub mapped : List Step → ℕ
mapped [] = 0
mapped (mmap true ∷ steps) = suc (mapped steps)
mapped (_ ∷ steps) = mapped steps

abbrev pub unmapped : List Step → ℕ
unmapped [] = 0
unmapped (munmap ∷ steps) = suc (unmapped steps)
unmapped (_ ∷ steps) = unmapped steps

-- Calls that have nothing to do with descriptors or mappings.
pub record IsQuiet (steps : List Step) : Type 0 where
  pub no_open : opened steps ≡ []
  pub no_close : closed steps ≡ []
  pub no_map : mapped steps ≡ 0
  pub no_unmap : unmapped steps ≡ 0

rest-IsQuiet :
    (a b : Option ℕ)
    → IsQuiet (
        destroy_with shm_destroy a
        ++ (destroy_with shooter_destroy b ++ registry_destroy ∷ display_disconnect ∷ []))
rest-IsQuiet none none = record { no_open = refl; no_close = refl; no_map = refl; no_unmap = refl }
rest-IsQuiet none (some b) = record {
  no_open = refl;
  no_close = refl;
  no_map = refl;
  no_unmap = refl;
}
rest-IsQuiet (some a) none = record {
  no_open = refl;
  no_close = refl;
  no_map = refl;
  no_unmap = refl;
}
rest-IsQuiet (some a) (some b) = record {
  no_open = refl;
  no_close = refl;
  no_map = refl;
  no_unmap = refl;
}

outputs-IsQuiet :
    (os : List OutputInfo) (steps : List Step)
    → IsQuiet steps
    → IsQuiet (destroy_outputs os ++ steps)
unfolding destroy_outputs
outputs-IsQuiet [] steps h = h
outputs-IsQuiet (o ∷ os) steps h =
    let q = outputs-IsQuiet os steps h in
    elim (Bool-cases (o.output == 0)) [
      | inl e ↦ simp e q
      | inr e ↦ simp e (record {
        no_open = q.no_open;
        no_close = q.no_close;
        no_map = q.no_map;
        no_unmap = q.no_unmap;
      })
    ]

pub cleanup-IsQuiet : (s : CaptureState) → IsQuiet (cleanup s)
unfolding cleanup
cleanup-IsQuiet s = outputs-IsQuiet s.outputs _ (rest-IsQuiet s.shm s.shooter)
