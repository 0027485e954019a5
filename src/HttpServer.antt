-- ===== src/HttpServer.antt =====
-- http/server.cpp and http/server.hpp: the server of HTTP requests. The data of requests, responses
-- and options; the children model the checks, the life cycle and the sessions.
pub mod Checks
pub mod Lifecycle
pub mod Session
mod Examples
use vacps.Prelude.{ℕ, ◌*◌, ℤ, pos, List, [], Bool, true, Option}
use vacps.Process.State.{Bytes}

abbrev pub Header : Type 0
Header = Bytes × Bytes

pub record ServerRequest : Type 0 where
  pub method : Bytes
  pub target : Bytes
  pub version : ℕ
  pub headers : List Header
  pub body : Bytes
  pub remote_address : Bytes

pub record ServerResponse : Type 0 where
  pub status : ℤ
  pub headers : List Header
  pub body : Bytes

-- Times are in milliseconds.
pub record ServerOptions : Type 0 where
  pub host : Bytes
  pub port : ℕ
  pub max_request_bytes : ℕ
  pub max_header_bytes : ℕ
  pub max_response_bytes : ℕ
  pub io_timeout : ℤ
  pub handler_timeout : ℤ
  pub backlog : ℤ
  pub reuse_address : Bool

pub record ListenAddress : Type 0 where
  pub host : Bytes
  pub port : ℕ

-- The errors by their messages.
pub data OptionFault : Type 0 where
  host_required no_request_bytes no_header_bytes no_response_bytes no_io_timeout
        no_handler_timeout :
      OptionFault

pub data ResponseFault : Type 0 where
  invalid_status must_not_include_body body_too_large : ResponseFault
  transport_owned invalid_name : Bytes → ResponseFault
  invalid_value : ResponseFault
