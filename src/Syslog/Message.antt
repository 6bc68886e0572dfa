-- ===== src/Syslog/Message.antt =====
-- ext/hyper_ruby/src/syslog.rs, the methods of `SyslogMessage`: what a handler gets to see of a
-- message. The string that `message` gives is tagged with its encoding, nil is `none`.
pub mod Unchecked
use hyper_ruby.Common.{
  ℕ, ◌+◌, Bool, true, false, ◌++◌, Option, none, some, if◌then◌else◌, length, Bytes,
}
use hyper_ruby.Http.Text.{codes, to_string}
use hyper_ruby.Syslog.Delivery.{Transport, stream, datagram, SyslogMessage}

-- `Transport::name`
unfoldable pub name : Transport → Bytes
name stream = codes "stream"
name datagram = codes "datagram"

-- A Ruby string: made by `from_utf8_unchecked`, which is undefined where the bytes are no UTF-8; or
-- of bytes in any encoding.
pub data TaggedString : Type 0 where
  unchecked_utf8 binary : Bytes → TaggedString

-- `SyslogMessage::message`
unfoldable pub message_string : SyslogMessage → TaggedString
message_string m = if m.utf8 then unchecked_utf8 m.bytes else binary m.bytes

-- `SyslogMessage::peer_ip`
unfoldable pub peer_ip : SyslogMessage → Option Bytes
peer_ip m = m.peer

-- `SyslogMessage::size`, over the size of the value itself.
unfoldable pub size : ℕ → SyslogMessage → ℕ
size size_of_val m = size_of_val + length m.bytes

-- `SyslogMessage::inspect`
unfoldable pub inspect_message : SyslogMessage → Bytes
unfolding name
inspect_message m =
    codes "#<HyperRuby::SyslogMessage transport=:"
    ++ (name m.transport
        ++ (codes " bytes="
            ++ (to_string (length m.bytes)
                ++ (codes " message_id="
                    ++ (to_string m.message_id
                        ++ (codes " attempt=" ++ (to_string m.attempt ++ codes ">")))))))
