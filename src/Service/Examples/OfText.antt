-- ===== src/Service/Examples/OfText.antt =====
-- Concrete texts (crates/service/src/message.rs).
use msft.Service.Text.ReadBack
use msft.Service.Text.Reader.{read}
use msft.Service.Text.{message_text}
use msft.Service.Message.{user_defined}
use msft.Prelude.{◌≡◌, some, arith}

read-message_text_example :
    read (message_text (user_defined 200 4294967295 77)) ≡ some (user_defined 200 4294967295 0)
read-message_text_example =
    ReadBack.read-message_text (user_defined 200 4294967295 77) (omega arith)
