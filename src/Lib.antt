-- ===== src/Lib.antt =====
-- The libraries of an Arduino core for the ESP32 (libraries/): components of the firmware that
-- devices run, modelled as functions on explicit states, with the theorems that make them
-- correct.
--
-- Base: shared names, Boolean tests, lists as arrays and buffers, and their lemmas.
--
-- Update (libraries/Update/src): the firmware updater. State is the object UpdateClass with
-- _reset, _abort, setMD5 and the accessors; Begin is begin; Buffer is _writeBuffer, with flush
-- for its part that erases and writes a sector; Write is write; Finish is _verifyHeader,
-- _verifyEnd, end and the roll back. Device holds what the platform provides: heap, partitions
-- and MD5 builder are parameters, and their documented behaviour is the hypothesis of the
-- theorems that need it. Rounds steps the loop of write; Image follows the bytes of an image
-- through buffer, flash and held-back first block; Safety has errors, termination and limits.
-- write runs on fuel that is two more than the length of the chunk. size_t has 32 bits. Writes
-- through pointers past the end of a block are dropped by the model; the theorems are about
-- states in which there are none. The progress callback is recorded, and taken not to call the
-- updater back. Not modelled: writeStream, the template write and the printing of errors.
--
-- Eeprom (libraries/EEPROM/src): a byte array kept in the non-volatile storage. Nvs is what the
-- code calls of the platform, a parameter, with its documented behaviour as hypotheses; State is
-- the object with read, write, commit and end; Values are readAll and writeAll and the typed
-- accessors over them, a value of k bytes being a number, and a float its bytes; Text are the
-- strings, whose loop counts with a uint16_t and runs on one round more than that has values, so
-- that a loop that uses them up never ends; Durable is about commit, end and a later begin,
-- Resize about a begin with a new size; Begin is begin, which loads the stored blob and resizes
-- it. convert, which migrates data from a raw partition, is not modelled.
--
-- Dns (libraries/DNSServer/src): the captive-portal name server. Message is the header and the
-- two walks over the name of a query; Server is the object, its replies and processNextRequest,
-- which takes the packet and returns the packet that it sends. The functions on std::string that
-- bring a name to lower case and remove its www prefix are parameters. A walk over a name stops
-- at the first access outside _buffer or QName, behind which nothing is promised. The walks run
-- on fuel: the one over QName has 129 rounds, since each round adds to its int8_t length and a
-- negative length is no index of QName; the other as many as the packet has bytes. stop only
-- closes the socket, and is not modelled.
--
-- Preferences (libraries/Preferences/src): typed values under keys. Store is what the code calls
-- of the NVS library, a parameter, with its documented behaviour as hypotheses; State is the
-- object with begin, end, clear and remove, and the commit that follows each change; Numbers are
-- the integers and Booleans, a number of any width being an integer; put_number and get_number
-- are what the eight functions of each kind have in common, and Typed is about all of them; Blobs
-- are strings, byte blocks, floating-point numbers as their bytes, and getType. A null key or
-- value is none. What only goes to the log is left out.
--
-- Wifi (libraries/WiFi/src): Wifi.Udp is WiFiUDP in WiFiUdp.cpp. Net is what it calls of the
-- sockets and of the byte queue cbuf, parameters; State is the object with begin, beginMulticast
-- and stop; Send is the outgoing datagram, Receive the incoming one. The outgoing buffer is the
-- bytes written to it so far. Life states what opening leaves behind, Datagrams what is sent and
-- read. The address and port getters are the fields. Wifi.Rx is WiFiClientRxBuffer in
-- WiFiClient.cpp: State is the object and fillBuffer, Read its reading; Fill, Window and Stream
-- show that it hands on the bytes of the stream in order. The copying loop of read has one round
-- more than bytes to copy as fuel, since each round copies one at least. The bytes of a new block
-- are what malloc gives. Wifi.Multi is WiFiMulti.cpp: Choice has addAP and the part of run that
-- looks through the networks found and chooses; Strongest is about the choice. The number of
-- networks found is brought to its int8_t. The scan, the connection and the wait for it are not
-- modelled.
--
-- WebServer (libraries/WebServer/src): Url is urlDecode in Parsing.cpp, with a string as the list
-- of its characters. Upload is the part of _parseForm that takes a file out of a multipart form,
-- from the new HTTPUpload to its end or abort, with _uploadWriteByte; its labels and jumps are
-- the values of Scan, and the bytes of the connection are those that _uploadReadByte gives before
-- it fails. Written, Payload and Found follow the bytes of the file to the handler. The bytes
-- behind the array that strstr reads are a parameter. Not modelled: the form fields,
-- authentication, static files and the building of the handlers. Response, Arguments and Client
-- are parts of WebServer.cpp and Parsing.cpp: the headers and the chunked contents of a response,
-- with the client and malloc as a parameter; _parseArguments with arg and hasArg, on parameters
-- for the functions of String, its loops with one round more than the text has characters; and
-- the state machine of handleClient, in which the reading and the handling of a request are a
-- parameter, and a call is given what it finds. Routes has the matching of addresses, which for
-- braces walks on one round more than the address has characters, and the list of handlers, whose
-- pointers are the order of a list and whose virtual canHandle is a function in the record;
-- initPathArgs is the number of path arguments that the caller gives. Request, with Parse and
-- Timed below it, is _parseRequest with the collection of headers and the timed reading of a
-- body, on parameters for the connection, for more functions of String, for the names and numbers
-- of the methods and for _parseForm; its loops over the headers run on fuel, since headers may
-- come without end.
--
-- Sd (libraries/SD/src): the driver of an SD card on the SPI bus. Tables and Crc are
-- sd_diskio_crc.c; Bus has the waits and the selection of the card, on a parameter for the bus
-- with its pin and clock, which says how often a wait can look at the clock before its time is
-- over; Command is sdCommand with its packet, tries and application commands, and sdTransaction;
-- Read and Write are the transfers of single sectors, the read of several, and the size of the
-- card. Remainder is about the checksums, on the exclusive or of Xor, and Later and Checked about
-- the transfers: Later are the states that the bus gets into. Fatfs has ff_sd_read. The rounds of
-- sdReadSectors are three for each block and four more. Not modelled: sdWriteSectors, the start
-- of the card, and the other functions for the file system.
--
-- Http (libraries/HTTPClient/src): Url is the part of beginInternal that takes the URL apart,
-- without the base64 of the credentials and the change of a connection. Transfer is writeToStream
-- and writeToStreamDataBlock of HTTPClient.cpp, on parameters for the connection, the stream that
-- is written to, malloc and the trimming of a String. Its two loops run on fuel: the real ones
-- need not end, as Stalls shows; Blocks and Composed say how much is enough when the response has
-- arrived. Composed puts the chunked contents of WebServer and this reader together. Not
-- modelled: the sending of a request, the reading of the headers, cookies and redirects.
pub mod Base
pub mod Update
pub mod Eeprom
pub mod Dns
pub mod Preferences
pub mod Wifi
pub mod WebServer
pub mod Sd
pub mod Http
