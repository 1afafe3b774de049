-- ===== src/Services/Keys/Ledger/History.antt =====
-- Lemmas about the history of a run.
use quant_execution.Base.{contains_text, text_keys}
use quant_execution.Services.Keys.Ledger.{
  Ledger, Step, issue, refuse, close, Run, start, next, NoRepeat, IsFresh, claim_key-parts,
  new_ledger,
}
use quant_execution.Services.Keys.Ledger.Issue.{issue-IsFresh}
use quant_execution.Services.Keys.Ledger.Close.{close-IsFresh}

-- Each call keeps the history free of repeats.
Step-IsFresh : {l m : Ledger} → Step l m → IsFresh l → IsFresh m
Step-IsFresh {l} (issue base key ks plain claimed) fresh =
    let parts = claim_key-parts base key l.keys ks claimed in
    rw parts.2 (issue-IsFresh l base key plain fresh parts.0 parts.1)
Step-IsFresh (refuse base dup) fresh = fresh
Step-IsFresh {l} (close key alive) fresh = close-IsFresh l key fresh alive

Run-IsFresh : {l m : Ledger} → Run l m → IsFresh l → IsFresh m
Run-IsFresh start fresh = fresh
Run-IsFresh (next r s) fresh = Step-IsFresh s (Run-IsFresh r fresh)

new-IsFresh : IsFresh new_ledger
unfolding contains_text
new-IsFresh = record { known = λ k h. cc; current = λ k h. cc; unique = tt }

-- Over any run of a service that starts with no keys, in which bases carry no attempt and a key is
-- forgotten only while its trade is live, no idempotency key is handed out twice.
pub issued-NoRepeat : (l : Ledger) → Run new_ledger l → NoRepeat l.issued
issued-NoRepeat l r = (Run-IsFresh r new-IsFresh).unique
