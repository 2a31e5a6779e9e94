-- ===== src/Session/Sized.antt =====
-- The sizes of the vectors that session.cpp indexes, and the backends that the ring names.
use aegis_proxy.Common.{
  ℕ, ◌<◌, ◌≡◌, ◌∙◌, Bool, not, ◌||◌, List, [], ◌∷◌, Option, arith, All, length,
}
use aegis_proxy.Run.{
  at, update, Total, Total-bind, Total-value, Ensures, Ensures-bind, Total-if, at-Total,
  update-Total,
}
use aegis_proxy.Breaker.{record_success, record_failure}
use aegis_proxy.Pool.{
  ConnectionPool, Socket, release, acquire_pooled, acquire_connected, take_pooled, count_active,
  connect, active_count, idle_count, increment, decrement,
}
use aegis_proxy.Metrics.{
  MetricsRegistry, count_up, record_backend_success, record_backend_failure, set_breaker_state,
  set_pool_active, set_pool_idle,
}
use aegis_proxy.Session.World.{
  World, state_code, show_breaker, report_failure, report_success, show_pool,
}

pub record PoolSized (n : ℕ) (p : ConnectionPool) : Type 0 where
  pub backends : length p.backends ≡ n
  pub free : length p.free_sockets ≡ n
  pub active : length p.active_counts ≡ n

pub record MetricsSized (n : ℕ) (m : MetricsRegistry) : Type 0 where
  pub success : length m.backend_success ≡ n
  pub failure : length m.backend_failure ≡ n
  pub breaker : length m.breaker_state ≡ n
  pub active : length m.pool_active ≡ n
  pub idle : length m.pool_idle ≡ n

pub record Sized (n : ℕ) (w : World) : Type 0 where
  pub breakers : length w.breakers ≡ n
  pub pool : PoolSized n w.pool
  pub metrics : MetricsSized n w.metrics
  pub ring : All (λ e. e.1 < n) w.ring.ring

module _ (n b : ℕ) (lt : b < n) where
  set_breaker_state-Sized :
      (state : ℕ) (m : MetricsRegistry)
      → MetricsSized n m
      → Total (MetricsSized n) (set_breaker_state b state m)
  unfolding set_breaker_state
  set_breaker_state-Sized state m s =
      Total-bind _ _ (update m.breaker_state b (λ _. state)) _
        (update-Total m.breaker_state b (λ _. state) (omega arith)) (λ ys e. ground arith)

  set_pool_active-Sized :
      (count : ℕ) (m : MetricsRegistry)
      → MetricsSized n m
      → Total (MetricsSized n) (set_pool_active b count m)
  unfolding set_pool_active
  set_pool_active-Sized count m s =
      Total-bind _ _ (update m.pool_active b (λ _. count)) _
        (update-Total m.pool_active b (λ _. count) (omega arith)) (λ ys e. ground arith)

  set_pool_idle-Sized :
      (count : ℕ) (m : MetricsRegistry)
      → MetricsSized n m
      → Total (MetricsSized n) (set_pool_idle b count m)
  unfolding set_pool_idle
  set_pool_idle-Sized count m s =
      Total-bind _ _ (update m.pool_idle b (λ _. count)) _
        (update-Total m.pool_idle b (λ _. count) (omega arith)) (λ ys e. ground arith)

  record_backend_success-Sized :
      (m : MetricsRegistry) → MetricsSized n m → Total (MetricsSized n) (record_backend_success b m)
  unfolding record_backend_success
  record_backend_success-Sized m s =
      Total-bind _ _ (update m.backend_success b count_up) _
        (update-Total m.backend_success b count_up (omega arith)) (λ ys e. ground arith)

  record_backend_failure-Sized :
      (m : MetricsRegistry) → MetricsSized n m → Total (MetricsSized n) (record_backend_failure b m)
  unfolding record_backend_failure
  record_backend_failure-Sized m s =
      Total-bind _ _ (update m.backend_failure b count_up) _
        (update-Total m.backend_failure b count_up (omega arith)) (λ ys e. ground arith)

  pub show_breaker-Sized : (w : World) → Sized n w → Total (Sized n) (show_breaker b w)
  unfolding show_breaker
  show_breaker-Sized w s =
      Total-bind (Sized n) _ (at w.breakers b) _ (at-Total w.breakers b (omega (arith, s.breakers)))
        (λ br _.
          Total-bind (Sized n) _ (set_breaker_state b (state_code br.state) w.metrics) _
            (set_breaker_state-Sized (state_code br.state) w.metrics s.metrics)
            (λ m sm. record { breakers = s.breakers; pool = s.pool; metrics = sm; ring = s.ring }))

  pub report_failure-Sized :
      (now : ℕ) (w : World) → Sized n w → Total (Sized n) (report_failure b now w)
  unfolding report_failure
  report_failure-Sized now w s =
      Total-bind (Sized n) _ (update w.breakers b (record_failure now)) _
        (update-Total w.breakers b (record_failure now) (omega (arith, s.breakers)))
        (λ bs e.
          Total-bind (Sized n) _ (record_backend_failure b w.metrics) _
            (record_backend_failure-Sized w.metrics s.metrics)
            (λ m sm.
              show_breaker-Sized (record w { breakers = bs; metrics = m })
                (record { breakers = e ∙ s.breakers; pool = s.pool; metrics = sm; ring = s.ring })))

  pub report_success-Sized : (w : World) → Sized n w → Total (Sized n) (report_success b w)
  unfolding report_success
  report_success-Sized w s =
      Total-bind (Sized n) _ (update w.breakers b record_success) _
        (update-Total w.breakers b record_success (omega (arith, s.breakers)))
        (λ bs e.
          Total-bind (Sized n) _ (record_backend_success b w.metrics) _
            (record_backend_success-Sized w.metrics s.metrics)
            (λ m sm.
              show_breaker-Sized (record w { breakers = bs; metrics = m })
                (record { breakers = e ∙ s.breakers; pool = s.pool; metrics = sm; ring = s.ring })))

  active_count-Total :
      (p : ConnectionPool) → PoolSized n p → Total (λ _. Unit {0}) (active_count b p)
  unfolding active_count
  active_count-Total p s = at-Total p.active_counts b (omega (arith, s.active))

  idle_count-Total : (p : ConnectionPool) → PoolSized n p → Total (λ _. Unit {0}) (idle_count b p)
  unfolding idle_count
  idle_count-Total p s =
      Total-bind _ _ (at p.free_sockets b) _ (at-Total p.free_sockets b (omega (arith, s.free)))
        (λ _ _. tt)

  pub show_pool-Sized : (w : World) → Sized n w → Total (Sized n) (show_pool b w)
  unfolding show_pool
  show_pool-Sized w s =
      Total-bind (Sized n) _ (active_count b w.pool) _ (active_count-Total w.pool s.pool) (λ a _.
        Total-bind (Sized n) _ (set_pool_active b a w.metrics) _
          (set_pool_active-Sized a w.metrics s.metrics)
          (λ m sm.
            Total-bind (Sized n) _ (idle_count b w.pool) _ (idle_count-Total w.pool s.pool) (λ i _.
              Total-bind (Sized n) _ (set_pool_idle b i m) _ (set_pool_idle-Sized i m sm) (λ k sk.
                record { breakers = s.breakers; pool = s.pool; metrics = sk; ring = s.ring }))))

  pub release-Sized :
      (socket : Socket) (healthy : Bool) (p : ConnectionPool)
      → PoolSized n p
      → Total (PoolSized n) (release b socket healthy p)
  unfolding release
  release-Sized socket healthy p s =
      Total-bind (PoolSized n) _ (update p.active_counts b decrement) _
        (update-Total p.active_counts b decrement (omega (arith, s.active)))
        (λ cs e.
          Total-if (PoolSized n) (not healthy || not socket.is_open) _ _
            (record { backends = s.backends; free = s.free; active = e ∙ s.active })
            (Total-bind (PoolSized n) _ (update p.free_sockets b (λ free. socket ∷ free)) _
              (update-Total p.free_sockets b (λ free. socket ∷ free) (omega (arith, s.free)))
              (λ ls l. record { backends = s.backends; free = l ∙ s.free; active = e ∙ s.active })))

  count_active-Sized : (p : ConnectionPool) → PoolSized n p → Total (PoolSized n) (count_active b p)
  unfolding count_active
  count_active-Sized p s =
      Total-bind (PoolSized n) _ (update p.active_counts b increment) _
        (update-Total p.active_counts b increment (omega (arith, s.active)))
        (λ cs c. record { backends = s.backends; free = s.free; active = c ∙ s.active })

  take_pooled-Sized :
      (free : List Socket) (p : ConnectionPool)
      → PoolSized n p
      → Total (λ r. PoolSized n r.1) (take_pooled b free p)
  unfolding take_pooled
  take_pooled-Sized [] p s = s
  take_pooled-Sized (socket ∷ rest) p s =
      Total-bind (λ r. PoolSized n r.1) _ (update p.free_sockets b (λ _. rest)) _
        (update-Total p.free_sockets b (λ _. rest) (omega (arith, s.free)))
        (λ ls l.
          Total-bind (λ r. PoolSized n r.1) (PoolSized n)
            (count_active b (record p { free_sockets = ls })) _
            (count_active-Sized (record p { free_sockets = ls })
              (record { backends = s.backends; free = l ∙ s.free; active = s.active }))
            (λ q sq. sq))

  pub acquire_pooled-Sized :
      (p : ConnectionPool) → PoolSized n p → Total (λ r. PoolSized n r.1) (acquire_pooled b p)
  unfolding acquire_pooled
  acquire_pooled-Sized p s =
      Total-bind (λ r. PoolSized n r.1) _ (at p.free_sockets b) _
        (at-Total p.free_sockets b (omega (arith, s.free))) (λ free _. take_pooled-Sized free p s)

  pub acquire_connected-Sized :
      (answer : Option Socket) (p : ConnectionPool)
      → PoolSized n p
      → Ensures (λ r. PoolSized n r.1) (acquire_connected b answer p)
  unfolding acquire_connected
  acquire_connected-Sized answer p s =
      Ensures-bind (λ r. PoolSized n r.1) (connect b answer p) _
        (λ socket _.
          Ensures-bind (λ r. PoolSized n r.1) (count_active b p) _
            (λ q e. Total-value (PoolSized n) (count_active b p) (count_active-Sized p s) e))
