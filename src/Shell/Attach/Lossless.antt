-- ===== src/Shell/Attach/Lossless.antt =====
-- The send loop of AttachShell passes on all of the log.
use xrunner.Base.{
  Bool, List, Option, Text, [], if◌then◌else◌, is_empty, length, true, ℕ, ◌++◌, ◌+◌, ◌||◌, ◌∷◌, ◌≡◌,
  ◌⊎◌,
}
use xrunner.Control.Types.{ℤ}
use xrunner.Shell.Acks.{Acks}
use xrunner.Shell.Attach.{Sender, Turn, flush, take_in}
use xrunner.Shell.Attach.Covering.{Covers, outputs}
use xrunner.Shell.Search.{turn}

module _ (now : ℤ) (decode : List ℕ → Option (List ℕ)) (encode : List ℕ → List ℕ) where
  -- The state of the loop where it has sent `covered` of what it has read from `start` on.
  pub record Sends (start : ℕ) (covered : List ℕ) (s : Sender) : Type 0 where
    pub covers : Covers now decode encode start (outputs s.sent) covered
    pub read : s.offset ≡ start + length covered + length s.pending
    pub place : (s.pending ≡ []) ⊎ (s.pending_start ≡ start + length covered)

  -- `bytes` have been read.
  abbrev pub Passes : ℕ → List ℕ → Sender → Type 0
  Passes start bytes s = (covered : List ℕ) × (bytes ≡ covered ++ s.pending) × Sends start covered s

  -- The bytes that the turns have read.
  abbrev pub read_by : List Turn → List ℕ
  read_by [] = []
  read_by (turn ∷ turns) = turn.bytes ++ read_by turns

  -- A turn that reads `more` and then flushes or, if it has read something, may wait.
  turn_of : Text → Text → List ℕ → Bool → Sender → Sender × Bool
  turn_of name client_id more waits s =
      let t = if is_empty more then s else take_in now decode encode more s in
      if is_empty more || waits then flush now decode encode name client_id true t else (t, true)
