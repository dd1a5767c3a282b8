-- ===== src/Memory/Errors.antt =====
-- `is_retryable_error` and `add_jitter` of memory.py.
use bulletfarm.Prelude.{ℕ, ◌+◌, ◌≤◌, Bool, true, false, ◌∷◌}
use bulletfarm.Prelude.Exec.{
  Exn, ExnKind, connection_timeout, connection_error, transport_error, ok, pure, ◌>>=◌,
}
use bulletfarm.Outside.{History, Act, Host, randint, call}

abbrev pub es_retry_jitter_ms : ℕ
es_retry_jitter_ms = 50

abbrev pub es_query_timeout_ms : ℕ
es_query_timeout_ms = 250

-- `isinstance(exc, (ConnectionTimeout, ConnectionError, TransportError))`
unfoldable pub is_retryable_kind : ExnKind → Bool
is_retryable_kind connection_timeout = true
is_retryable_kind connection_error = true
is_retryable_kind transport_error = true
is_retryable_kind _ = false

abbrev pub is_retryable_error : Exn → Bool
is_retryable_error exc = is_retryable_kind exc.kind

-- The delay in milliseconds, where the source divides by 1000 for seconds.
unfoldable pub add_jitter : Host → ℕ → ℕ → Act ℕ
add_jitter host base_delay_ms max_jitter_ms = do
  jitter_ms ← call (λ h. ok (host.randint h)) (randint 0 max_jitter_ms)
  pure (base_delay_ms + jitter_ms)

-- What the standard library documents of `random.randint(a, b)`, which the history shows as the
-- call just made: the result is at least `a` and at most `b`.
pub record IsInRange (host : Host) : Type 0 where
  pub range :
      (a b : ℕ) (h : History)
      → a ≤ b
      → (a ≤ host.randint (randint a b ∷ h)) × (host.randint (randint a b ∷ h) ≤ b)
