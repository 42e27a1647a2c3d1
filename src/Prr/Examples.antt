-- ===== src/Prr/Examples.antt =====
-- The bound on what is sent after a loss, for one packet.
use puic.Prr.{PrrSender, prr_sender, on_packet_lost}

abbrev after_loss : PrrSender
after_loss = on_packet_lost prr_sender 50000
