-- ===== src/Mail/Socket.antt =====
-- What `MailSender` asks of `QTcpSocket` and `QSslSocket`, which are Qt's: a parameter of the model.
use rssani.Base.{ℕ, ◌≡◌, ◌<◌, Bool, true, ℤ, QString}

pub record Socket : Type 1 where
  pub Wire : Type 0
  -- A new socket behind `connectToHost( server, port )`.
  pub connect_to_host : QString → ℤ → Wire
  -- `state() == ConnectedState`.
  pub is_connected : Wire → Bool
  pub wait_for_connected : ℤ → Wire → Bool × Wire
  pub wait_for_ready_read : ℤ → Wire → Bool × Wire
  pub can_read_line : Wire → Bool
  pub read_line : Wire → QString × Wire
  -- A text written and flushed.
  pub write : QString → Wire → Wire
  pub start_client_encryption : Wire → Wire
  pub disconnect_from_host : Wire → Wire
  -- The complete lines that have arrived and are not read; reading one takes it.
  pub pending : Wire → ℕ
  pub pending_read_line : (w : Wire) → can_read_line w ≡ true → pending (read_line w).1 < pending w
