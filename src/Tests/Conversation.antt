-- ===== src/Tests/Conversation.antt =====
-- A conversation at concrete inputs.
use lnsocket.Prelude.{refl, [], arith, inl}
use lnsocket.Memory.{zeroed, store}
use lnsocket.Conversation.{
  Talk, IsFresh, turned, Fair, left_writes, Reach, here, next, left_stores, writes_left,
}
use lnsocket.Conversation.Order.{IsQueue, Reach-IsQueue}
use lnsocket.Tests.Toy.{toy, toy_aead_laws}
use lnsocket.Tests.Transport.{ln, crypto-Mirrors, hello}

-- Two like sockets at the ends.
abbrev before : Talk
before = record {
  left = ln;
  right = ln;
  rightward = [];
  leftward = [];
  left_sent = [];
  right_got = [];
  right_sent = [];
  left_got = [];
}

before-IsFresh : IsFresh before
before-IsFresh = record {
  there = crypto-Mirrors;
  back = crypto-Mirrors;
  rightward = refl;
  leftward = refl;
  left_sent = refl;
  right_sent = refl;
}

abbrev stored : Talk
stored = record before { left = record ln { memory = store zeroed 500 hello } }

stored-Fair : Fair toy toy_aead_laws stored 500 5
unfolding store lnsocket.Memory.update lnsocket.Memory.load
stored-Fair = record {
  ready = record { opened = omega arith; room = omega arith };
  apart = inl (omega arith);
  fits = (omega arith, omega arith);
}

-- The left end stores a message and writes it.
said : Reach toy toy_aead_laws before (left_writes toy 500 5 stored)
said =
    next (next here (left_stores (store zeroed 500 hello) refl))
      (writes_left 500 5 stored-Fair refl)

Reach-IsQueue_example :
    IsQueue toy toy_aead_laws (left_writes toy 500 5 stored)
    × IsQueue toy toy_aead_laws (turned (left_writes toy 500 5 stored))
Reach-IsQueue_example = Reach-IsQueue toy toy_aead_laws before-IsFresh said
