-- ===== src/NetClient.antt =====
-- ServerConnector.h and ServerConnector.cpp, class NetClient: the server's side of one connection, and
-- its non-blocking input and output. What recv and send return is an argument; the calls that end in
-- close_connection say so in their result, and `Connector` closes the connection.
pub mod Receiving
pub mod Sending
use universal_fencing_hub.Base.{
  ℕ, ◌+◌, ◌-◌, ◌%◌, ◌^◌, ◌≤◌, Bool, true, false, List, Option, none, some, ltb, leb, if◌then◌else◌,
  length, replicate, write_at, slice, min,
}
use universal_fencing_hub.MsgHeader.{MsgHeader, header_size, cleared, serialize, deserialize}
use universal_fencing_hub.CharBuffer.{CharBuffer}

abbrev pub io_buffer_size : ℕ
io_buffer_size = 1024

abbrev pub field_size : ℕ
field_size = 1024

abbrev pub nodename_size : ℕ
nodename_size = 255

-- A file descriptor; `none` is FD_NONE.
abbrev pub Fd : Type 0
Fd = Option ℕ

pub data IoOp : Type 0 where
  noop read write : IoOp

pub data Phase : Type 0 where
  recv send pending executing canceled : Phase

-- AF_INET and AF_INET6
pub data Domain : Type 0 where
  inet4 inet6 : Domain

-- `address` is the memory of the peer's address, which `address_length` bytes of are used.
pub record NetClient (B : Type 0) : Type 0 where
  pub key_buffer : B
  pub value_buffer : B
  pub nodename : B
  pub secret : B
  pub address : List ℕ
  pub socket_domain : Domain
  pub socket_fd : Fd
  pub current_phase : Phase
  pub next_phase : Phase
  pub io_state : IoOp
  pub header : MsgHeader
  pub have_header : Bool
  pub io_offset : ℕ
  pub io_buffer : List ℕ

-- a - b on a size_t
abbrev pub sub_size : ℕ → ℕ → ℕ
sub_size a b = (a + 2 ^ 64 - b) % 2 ^ 64

-- What recv gives: a number of bytes, none of them at the end of the stream, or an error.
pub data RecvResult : Type 0 where
  received : List ℕ → RecvResult
  recv_failed : RecvResult

-- What send gives: a count of bytes, -1 with EAGAIN or EWOULDBLOCK, or -1 with another error.
pub data SendResult : Type 0 where
  sent : ℕ → SendResult
  would_block send_failed : SendResult

-- What receive_message and send_message leave to do: they return true, or false, or they have
-- closed the connection and return false.
pub data IoResult : Type 0 where
  complete partial closed : IoResult

module _ {B : Type 0} where
  unfoldable pub clear_io_buffer : NetClient B → NetClient B
  clear_io_buffer c = record c {
    io_offset = 0;
    have_header = false;
    io_buffer = replicate io_buffer_size 0;
  }

  -- The size that receive_message asks recv for.
  unfoldable pub req_read_size : NetClient B → ℕ
  req_read_size c =
      if ltb c.io_offset header_size
      then sub_size header_size c.io_offset
      else sub_size c.header.data_length c.io_offset

  -- The header, once its bytes are there, with the length cut to the buffer.
  unfoldable pub take_header : NetClient B → NetClient B
  take_header c =
      let header = deserialize c.io_buffer in
      record c {
        header =
            if ltb io_buffer_size header.data_length
            then record header { data_length = io_buffer_size }
            else header;
        have_header = true;
      }

  unfoldable pub receive_bytes : NetClient B → List ℕ → NetClient B × IoResult
  unfolding take_header
  receive_bytes c bytes =
      let c' = record c {
        io_buffer = write_at c.io_buffer c.io_offset bytes;
        io_offset = c.io_offset + length bytes;
      } in
      if c.have_header
      then (c', if leb c.header.data_length c'.io_offset then complete else partial)
      else (if leb header_size c'.io_offset
          then (
            take_header c',
            if leb (take_header c').header.data_length header_size then complete else partial,
          )
          else (c', partial))

  unfoldable pub receive_message : NetClient B → RecvResult → NetClient B × IoResult
  unfolding receive_bytes
  receive_message c recv_failed = (c, closed)
  receive_message c (received bytes) =
      if ltb 0 (length bytes) then receive_bytes c bytes else (c, closed)

  -- The header of the reply, its length brought between a header and the buffer.
  unfoldable pub put_header : NetClient B → NetClient B
  put_header c =
      let length_checked : MsgHeader =
        if ltb c.header.data_length header_size
        then record c.header { data_length = header_size }
        else (if ltb io_buffer_size c.header.data_length
            then record c.header { data_length = io_buffer_size }
            else c.header) in
      if c.have_header then c else record c {
        header = length_checked;
        io_buffer = serialize length_checked c.io_buffer;
        have_header = true;
      }

  -- The size that send_message asks send for, after put_header.
  unfoldable pub req_write_size : NetClient B → ℕ
  req_write_size c =
      min (io_buffer_size % 2 ^ 16) (sub_size c.header.data_length c.io_offset % 2 ^ 16)

  -- The offset after send.
  abbrev pub advance : NetClient B → ℕ → NetClient B
  advance c write_size = record c { io_offset = c.io_offset + write_size }

  abbrev pub send_done : NetClient B → NetClient B × IoResult
  send_done c = (c, if leb c.header.data_length c.io_offset then complete else partial)

  unfoldable pub send_message : NetClient B → SendResult → NetClient B × IoResult
  unfolding put_header
  send_message c send_failed = (put_header c, closed)
  send_message c would_block = send_done (put_header c)
  send_message c (sent write_size) = send_done (advance (put_header c) write_size)

module _ {B : Type 0} ⦃cb : CharBuffer B⦄ where
  -- NetClient::clear
  unfoldable pub clear : NetClient B → NetClient B
  unfolding clear_io_buffer
  clear c = clear_io_buffer (record c {
    address = replicate (length c.address) 0;
    socket_fd = none;
    current_phase = Phase.recv;
    next_phase = Phase.pending;
    io_state = IoOp.noop;
    header = cleared;
    nodename = cb.wipe c.nodename;
    secret = cb.wipe c.secret;
    key_buffer = cb.wipe c.key_buffer;
    value_buffer = cb.wipe c.value_buffer;
  })
